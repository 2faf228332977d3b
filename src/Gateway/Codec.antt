-- ===== src/Gateway/Codec.antt =====
-- The Minecraft packets of the gateway. A byte is a number below 256, a reader the bytes that it
-- has not given out. `b & 0x7f` is `b % 128`, a group that `|=` puts above the earlier ones is
-- added, and `|= 0x80` adds 128 to a byte below it.
pub mod VarInt
pub mod Messages
use hogs.Prelude.{
  ℕ, zero, suc, ◌+◌, ◌*◌, ◌/◌, ◌%◌, ◌^◌, Bool, true, false, not, ◌&&◌, ◌||◌, List, [], ◌∷◌, ◌++◌,
  leb, ltb, eqb, length, if◌then◌else◌,
}
use hogs.Prelude.Fallible.{Result, ok, err, ◌>>=◌}

abbrev pub Bytes : Type 0
Bytes = List ℕ

pub data CodecError : Type 0 where
  eof var_int_too_long bad_packet_length bad_string_length : CodecError
  not_handshake bad_next_state not_login bad_username : CodecError

abbrev pub max_minecraft_packet : ℕ
max_minecraft_packet = 2097152

-- The loop of `readMinecraftVarInt` (and of its twin on a plain reader), with the rounds left: the
-- value, the bytes read and the bytes that follow.
unfoldable pub read_groups : ℕ → ℕ → ℕ → Bytes → Bytes → Result CodecError (ℕ × Bytes × Bytes)
read_groups zero position value prefix bytes = err var_int_too_long
read_groups (suc rounds) position value prefix [] = err eof
read_groups (suc rounds) position value prefix (current ∷ bytes) =
    let value' = value + current % 128 * 2 ^ (7 * position) in
    let prefix' = prefix ++ current ∷ [] in
    let more = read_groups rounds (position + 1) value' prefix' bytes in
    if ltb current 128 then ok (value', prefix', bytes) else more

unfoldable pub read_var_int : Bytes → Result CodecError (ℕ × Bytes × Bytes)
unfolding read_groups
read_var_int = read_groups 5 0 0 []

-- The loop of `appendMinecraftVarInt`, for a value that is not negative. A Go `int` has 63 bits
-- beside its sign, so ten rounds are more than it takes.
unfoldable pub groups : ℕ → ℕ → Bytes
groups zero value = []
groups (suc rounds) value =
    let more = groups rounds (value / 128) in
    if eqb (value / 128) 0 then value % 128 ∷ [] else (value % 128 + 128) ∷ more

unfoldable pub append_var_int : Bytes → ℕ → Bytes
unfolding groups
append_var_int target value = target ++ groups 10 value

-- `io.ReadFull` of a number of bytes.
unfoldable pub read_full : ℕ → Bytes → Result CodecError (Bytes × Bytes)
read_full zero bytes = ok ([], bytes)
read_full (suc n) [] = err eof
read_full (suc n) (b ∷ bytes) = do (value, rest) ← read_full n bytes; ok (b ∷ value, rest)

-- `readMinecraftPacket`: the body, the raw packet, and what follows.
unfoldable pub read_packet : Bytes → Result CodecError (Bytes × Bytes × Bytes)
unfolding read_var_int read_full
read_packet bytes = do
  (size, prefix, rest) ← read_var_int bytes
  let bad = eqb size 0 || ltb max_minecraft_packet size
  (body, after) ← if bad then err bad_packet_length else read_full size rest
  ok (body, prefix ++ body, after)

-- `readMinecraftString`; any error is the same to its callers.
unfoldable pub read_string : ℕ → Bytes → Result CodecError (Bytes × Bytes)
unfolding read_var_int read_full
read_string maximum bytes = do
  (size, prefix, rest) ← read_var_int bytes
  let bad = ltb (maximum * 4) size || ltb (length rest) size
  if bad then err bad_string_length else read_full size rest

pub record Handshake : Type 0 where
  pub protocol : ℕ
  pub host : Bytes
  pub port : ℕ
  pub next_state : ℕ

unfoldable pub read_port : Bytes → Result CodecError (ℕ × Bytes)
read_port (hi ∷ lo ∷ rest) = ok (hi * 256 + lo, rest)
read_port _ = err eof

-- `parseMinecraftHandshake`. Bytes behind the handshake are ignored.
unfoldable pub parse_handshake : Bytes → Result CodecError Handshake
parse_handshake body = do
  (packet_id, p₁, rest₁) ← read_var_int body
  (protocol, p₂, rest₂) ← if eqb packet_id 0 then read_var_int rest₁ else err not_handshake
  (host, rest₃) ← read_string 255 rest₂
  (port, rest₄) ← read_port rest₃
  (next_state, p₃, rest₅) ← read_var_int rest₄
  let good = eqb next_state 1 || eqb next_state 2
  if good
      then ok (record { protocol = protocol; host = host; port = port; next_state = next_state })
      else err bad_next_state

unfoldable pub is_username_byte : ℕ → Bool
is_username_byte c =
    eqb c b'_'
    || (leb b'a' c && leb c b'z')
    || (leb b'A' c && leb c b'Z')
    || (leb b'0' c && leb c b'9')

unfoldable pub all_username_bytes : Bytes → Bool
unfolding is_username_byte
all_username_bytes [] = true
all_username_bytes (c ∷ cs) = is_username_byte c && all_username_bytes cs

-- `parseMinecraftLoginUsername`
unfoldable pub parse_login_username : Bytes → Result CodecError Bytes
parse_login_username body = do
  (packet_id, prefix, rest) ← read_var_int body
  (username, after) ← if eqb packet_id 0 then read_string 16 rest else err not_login
  let good = not (ltb (length username) 3) && all_username_bytes username
  if good then ok username else err bad_username

-- `minecraftPacket`, `minecraftString`
unfoldable pub minecraft_packet : Bytes → Bytes
unfolding append_var_int
minecraft_packet body = append_var_int [] (length body) ++ body

unfoldable pub minecraft_string : Bytes → Bytes
unfolding append_var_int
minecraft_string value = append_var_int [] (length value) ++ value
