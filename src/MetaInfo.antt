-- ===== src/MetaInfo.antt =====
-- include/fractals/torrent/MetaInfo.h: what a torrent file says. A text is its bytes, a number its
-- bit pattern.
use fractals.Prelude.{ℕ, Option, List}

pub record FileInfo : Type 0 where
  pub file_length : ℕ
  pub md5sum : List ℕ
  pub path : List (List ℕ)

pub record SingleFile : Type 0 where
  pub name : List ℕ
  pub file_length : ℕ
  pub md5sum : List ℕ

pub record MultiFile : Type 0 where
  pub name : List ℕ
  pub files : List FileInfo

pub data FileMode : Type 0 where
  single : SingleFile → FileMode
  multi : MultiFile → FileMode

pub record InfoDict : Type 0 where
  pub piece_length : ℕ
  pub pieces : List ℕ
  pub publish : Option ℕ
  pub file_mode : FileMode

pub record MetaInfo : Type 0 where
  pub announce : List ℕ
  pub announce_list : List (List ℕ)
  pub creation_date : Option ℕ
  pub comment : Option (List ℕ)
  pub created_by : Option (List ℕ)
  pub encoding : Option (List ℕ)
  pub info : InfoDict
