-- ===== src/BufferedQueueManager/Deque.antt =====
-- `ReadMsgState`, and `parseMessage` on the deque of one peer.
use fractals.Prelude.{
  ℕ, ◌+◌, ◌%◌, ◌^◌, min, Bool, Option, none, some, List, [], ◌∷◌, ◌++◌, length, ltb, leb,
  if◌then◌else◌, true, false, take, drop, ◌&&◌, ◌||◌, not,
}
use fractals.Prelude.Int.{ℤ, pos, negsuc, sub_ℕ}
use fractals.Bytes.{bytes_to_int}

pub record ReadMsgState : Type 0 where
  pub m_length : ℤ
  pub buffer : List ℕ

infixl 5 ◌>>=◌
abbrev pub ◌>>=◌ {ℓ κ} : {A : Type ℓ} {B : Type κ} → Option A → (A → Option B) → Option B
none >>= f = none
some a >>= f = f a

abbrev pub new : ReadMsgState
new = record { m_length = negsuc 0; buffer = [] }

-- `mLength <= buffer.size()` compares as unsigned, so a negative length is never reached.
abbrev reached : ℤ → ℕ → Bool
reached (pos n) size = leb n size
reached (negsuc n) size = false

unfoldable pub is_complete : ReadMsgState → Bool
is_complete m = reached m.m_length (length m.buffer)

abbrev nonneg : ℤ → Bool
nonneg (pos n) = true
nonneg (negsuc n) = false

unfoldable pub is_initialized : ReadMsgState → Bool
is_initialized m = nonneg m.m_length

-- A length of 2 ^ 31 or more becomes a negative `mLength`, and `reserve` throws on it.
unfoldable pub initialize : ℕ → ReadMsgState → Option ReadMsgState
initialize len m = if ltb len (2 ^ 31) then some (record m { m_length = pos len }) else none

abbrev left_of : ℤ → ℕ → ℤ
left_of (pos n) size = sub_ℕ n size
left_of (negsuc n) size = negsuc (n + size)

unfoldable pub get_remaining : ReadMsgState → ℤ
get_remaining m = left_of m.m_length (length m.buffer)

-- The number of bytes that are taken, if that is no negative number.
abbrev taken : ℤ → ℕ → Option ℕ
taken (pos n) size = some (min n size)
taken (negsuc n) size = none

unfoldable pub append : ℕ → List ℕ → ReadMsgState → ReadMsgState
append bytes input m = record m { buffer = m.buffer ++ take bytes input }

-- What `parseMessage` leaves: whether a message is complete, the deque, and the rest of the view.
abbrev pub Parsed : Type 0
Parsed = Option (Bool × List ReadMsgState × List ℕ)

-- The first message of a peer is a handshake, and its first byte tells the size.
unfoldable pub parse_first : List ℕ → Parsed
unfolding initialize get_remaining append is_complete
parse_first [] = none
parse_first (c ∷ rest) = do
  m ← initialize (49 + c) new
  bytes ← taken (get_remaining m) (length (c ∷ rest))
  let m' = append bytes (c ∷ rest) m
  some (is_complete m', m' ∷ [], drop bytes (c ∷ rest))

abbrev longer : List ReadMsgState → Bool
longer [] = false
longer (m ∷ older) = true

-- The size is known, and bytes are missing.
unfoldable pub parse_more : ReadMsgState → List ReadMsgState → List ℕ → Parsed
unfolding get_remaining append is_complete
parse_more m older input = do
  bytes ← taken (get_remaining m) (length input)
  let m' = append bytes input m
  some (longer older || is_complete m', m' ∷ older, drop bytes input)

-- Four bytes at most are taken; once the buffer has four, the size is known.
unfoldable pub parse_length : ReadMsgState → List ReadMsgState → List ℕ → Parsed
unfolding initialize append is_complete
parse_length m older input = do
  let bytes = min 4 (length input)
  let m' = append bytes input m
  m'' ←
      (if leb 4 (length m'.buffer)
        then initialize (((bytes_to_int 4 m'.buffer).0 + 4) % 2 ^ 32) m'
        else some m')
  some (is_complete m'', m'' ∷ older, drop bytes input)

-- `parseMessage`, given what `mReadBuffers` holds for the peer.
unfoldable pub parse_deque : Option (List ReadMsgState) → List ℕ → Parsed
unfolding parse_first parse_more parse_length is_initialized is_complete
parse_deque none input = parse_first input
parse_deque (some []) input = parse_length new [] input
parse_deque (some (m ∷ older)) input =
    if is_initialized m && not (is_complete m)
    then parse_more m older input
    else if is_complete m
    then parse_length new (m ∷ older) input
    else parse_length m older input
