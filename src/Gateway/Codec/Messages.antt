-- ===== src/Gateway/Codec/Messages.antt =====
-- The packets of a client: what `parseMinecraftHandshake` and `parseMinecraftLoginUsername` make of
-- the bytes that the protocol prescribes.
use mathlib.Core.List.{append_assoc}
use hogs.Prelude.{
  ℕ, ◌+◌, ◌*◌, ◌≤◌, ◌<◌, true, false, not, ◌&&◌, ◌||◌, [], ◌∷◌, ◌++◌, leb, ltb, eqb, length,
  length-append, if◌then◌else◌, ◌≡◌, refl, ◌↔◌, inl, inr, Bool-cases, leb→le, arith,
}
use hogs.Prelude.Fallible.{ok, err}
use hogs.Gateway.Codec.{
  Bytes, CodecError, read_var_int, read_full, read_packet, read_string, read_port, parse_handshake,
  parse_login_username, all_username_bytes, append_var_int, minecraft_packet, minecraft_string,
}
use hogs.Gateway.Codec.VarInt.{read_var_int-append_var_int}

read_full-length : (xs rest : Bytes) → read_full (length xs) (xs ++ rest) ≡ ok (xs, rest)
unfolding read_full
read_full-length [] rest = refl
read_full-length (x ∷ xs) rest = rw (read_full-length xs rest) refl

-- A packet of one byte to 2 MiB is read back whole from the bytes that are sent for it, and the next
-- packet's bytes are left.
pub read_packet-minecraft_packet :
    (body rest : Bytes)
    → 0 < length body
    → length body ≤ 2097152
    → read_packet (minecraft_packet body ++ rest) ≡ ok (body, minecraft_packet body, rest)
unfolding read_packet minecraft_packet
read_packet-minecraft_packet body rest h k =
    let w = append_var_int [] (length body) in
    let a : eqb (length body) 0 ≡ false = ground arith in
    let b : ltb 2097152 (length body) ≡ false = ground arith in
    rw
      (
        append_assoc w body rest,
        read_var_int-append_var_int (length body) (body ++ rest) (omega arith),
        a,
        b,
        read_full-length body rest,
      )
      refl

read_string-minecraft_string :
    (maximum : ℕ) (value rest : Bytes)
    → length value ≤ maximum * 4
    → maximum ≤ 255
    → read_string maximum (minecraft_string value ++ rest) ≡ ok (value, rest)
unfolding read_string minecraft_string
read_string-minecraft_string maximum value rest h k =
    let w = append_var_int [] (length value) in
    let a : ltb (maximum * 4) (length value) ≡ false = ground arith in
    let b : ltb (length (value ++ rest)) (length value) ≡ false =
      ground (arith, length-append value rest) in
    rw
      (
        append_assoc w value rest,
        read_var_int-append_var_int (length value) (value ++ rest) (omega arith),
        a,
        b,
        read_full-length value rest,
      )
      refl

-- The bytes of a handshake and of a login start packet in the Minecraft protocol.
unfoldable pub handshake_bytes : ℕ → Bytes → ℕ → ℕ → ℕ → Bytes → Bytes
handshake_bytes protocol host hi lo next_state rest =
    append_var_int [] 0
    ++ (append_var_int [] protocol
        ++ (minecraft_string host ++ (hi ∷ lo ∷ (append_var_int [] next_state ++ rest))))

-- What a parser does with the fields that its readers give.
parse_handshake_fields :
    (b₁ b₂ b₃ b₄ b₅ b₆ p₁ p₂ p₃ host : Bytes) (protocol port next_state : ℕ)
    → read_var_int b₁ ≡ ok (0, p₁, b₂)
    → read_var_int b₂ ≡ ok (protocol, p₂, b₃)
    → read_string 255 b₃ ≡ ok (host, b₄)
    → read_port b₄ ≡ ok (port, b₅)
    → read_var_int b₅ ≡ ok (next_state, p₃, b₆)
    → (eqb next_state 1 || eqb next_state 2) ≡ true
    → parse_handshake b₁
      ≡ ok (record { protocol = protocol; host = host; port = port; next_state = next_state })
unfolding parse_handshake
parse_handshake_fields b₁ b₂ b₃ b₄ b₅ b₆ p₁ p₂ p₃ host protocol port next_state h k l m n good =
    rw (h, k, l, m, n, good) refl

-- A handshake of the protocol is parsed to its own fields, for a protocol number below 2^35, a host
-- of at most 1020 bytes and a next state 1 or 2; bytes behind it are ignored.
pub parse_handshake-handshake_bytes :
    (protocol : ℕ) (host : Bytes) (hi lo next_state : ℕ) (rest : Bytes)
    → protocol < 34359738368
    → length host ≤ 1020
    → 1 ≤ next_state
    → next_state ≤ 2
    → parse_handshake (handshake_bytes protocol host hi lo next_state rest)
      ≡ ok (record {
        protocol = protocol;
        host = host;
        port = hi * 256 + lo;
        next_state = next_state;
      })
unfolding handshake_bytes read_port
parse_handshake-handshake_bytes protocol host hi lo next_state rest h k l m =
    let tail : Bytes = hi ∷ lo ∷ (append_var_int [] next_state ++ rest) in
    parse_handshake_fields _ _ _ _ _ _ _ _ _ host protocol (hi * 256 + lo) next_state
      (read_var_int-append_var_int 0 (append_var_int [] protocol ++ (minecraft_string host ++ tail))
        (omega arith))
      (read_var_int-append_var_int protocol (minecraft_string host ++ tail) h)
      (read_string-minecraft_string 255 host tail k (omega arith)) refl
      (read_var_int-append_var_int next_state rest (omega arith)) (ground arith)

-- A string that is too long for its reader is refused.
read_string-long :
    (maximum : ℕ) (value rest : Bytes)
    → maximum * 4 < length value
    → length value < 34359738368
    → read_string maximum (minecraft_string value ++ rest) ≡ err CodecError.bad_string_length
unfolding read_string minecraft_string
read_string-long maximum value rest h k =
    let w = append_var_int [] (length value) in
    let a : ltb (maximum * 4) (length value) ≡ true = ground arith in
    rw (append_assoc w value rest, read_var_int-append_var_int (length value) (value ++ rest) k, a)
      refl

parse_login_username_field :
    (b₁ b₂ b₃ p username : Bytes)
    → read_var_int b₁ ≡ ok (0, p, b₂)
    → read_string 16 b₂ ≡ ok (username, b₃)
    → parse_login_username b₁ ≡ (
        if not (ltb (length username) 3) && all_username_bytes username
        then ok username
        else err CodecError.bad_username)
unfolding parse_login_username
parse_login_username_field b₁ b₂ b₃ p username h k = rw (h, k) refl

parse_login_username_refused :
    (b₁ b₂ p : Bytes) (e : CodecError)
    → read_var_int b₁ ≡ ok (0, p, b₂)
    → read_string 16 b₂ ≡ err e
    → parse_login_username b₁ ≡ err e
unfolding parse_login_username
parse_login_username_refused b₁ b₂ p e h k = rw (h, k) refl

-- A login start packet with a name below 2^35 bytes is accepted, with that name, exactly when the
-- name has 3 to 64 bytes, each a letter, a digit or an underscore; bytes behind it are ignored.
pub parse_login_username_iff :
    (username rest : Bytes)
    → length username < 34359738368
    → (parse_login_username (append_var_int [] 0 ++ (minecraft_string username ++ rest))
        ≡ ok username)
      ↔ ((3 ≤ length username) × (length username ≤ 64) × (all_username_bytes username ≡ true))
parse_login_username_iff username rest h =
    let b : Bytes = minecraft_string username ++ rest in
    let zero_id = read_var_int-append_var_int 0 b (omega arith) in
    elim (Bool-cases (leb (length username) 64)) [
      | inl short ↦
          let s = leb→le _ _ short in
          rw
            (parse_login_username_field _ _ _ _ username zero_id
              (read_string-minecraft_string 16 username rest s (omega arith)))
            (ground (arith, s))
      | inr long ↦
          rw
            (parse_login_username_refused _ _ _ _ zero_id
              (read_string-long 16 username rest (ground arith) h))
            (ground (arith, long))
    ]
