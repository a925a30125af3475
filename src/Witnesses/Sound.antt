-- ===== src/Witnesses/Sound.antt =====
-- Primitives that keep what the crates promise: bytes in unary digits, keys that are padded to 32
-- bytes, an exchange that adds, and a cipher that adds one.
use blindmarkets.Base.{
  ℕ, zero, suc, ◌+◌, ◌-◌, ◌≡◌, refl, sym, ap, ◌∙◌, true, [], ◌∷◌, Option, none, some, Text, length,
  all, is_ascii_hexdigit, is_ascii_digit, ◌==◌, if◌then◌else◌, arith,
}
use blindmarkets.Gateway.Crypto.{Bytes, Primitives}
use blindmarkets.Client.Delivery.{IsSound}

abbrev digits : ℕ → Text → Text
digits zero t = b'0' ∷ t
digits (suc n) t = b'1' ∷ digits n t

abbrev encode : Bytes → Text
encode [] = []
encode (b ∷ bs) = digits b (encode bs)

abbrev with_byte : ℕ → Option Bytes → Option Bytes
with_byte b none = none
with_byte b (some bs) = some (b ∷ bs)

abbrev decode : ℕ → Text → Option Bytes
decode acc [] = if acc == 0 then some [] else none
decode acc (c ∷ s) =
    let byte = decode 0 s in
    let more = decode (acc + 1) s in if c == b'0' then with_byte acc byte else more

decode-digits : (n acc : ℕ) (t : Text) → decode acc (digits n t) ≡ with_byte (acc + n) (decode 0 t)
decode-digits zero acc t = ap (λ b. with_byte b (decode 0 t)) (omega arith)
decode-digits (suc n) acc t =
    decode-digits n (acc + 1) t ∙ ap (λ b. with_byte b (decode 0 t)) (omega arith)

decode-encode : (b : Bytes) → decode 0 (encode b) ≡ some b
decode-encode [] = refl
decode-encode (b ∷ bs) = decode-digits b 0 (encode bs) ∙ ground (arith, decode-encode bs)

digits-hex :
    (n : ℕ) (t : Text) → all is_ascii_hexdigit t ≡ true → all is_ascii_hexdigit (digits n t) ≡ true
unfolding all is_ascii_hexdigit is_ascii_digit
digits-hex zero t h = h
digits-hex (suc n) t h = digits-hex n t h

encode-hex : (b : Bytes) → all is_ascii_hexdigit (encode b) ≡ true
unfolding all
encode-hex [] = refl
encode-hex (b ∷ bs) = digits-hex b (encode bs) (encode-hex bs)

abbrev head_or_0 : Bytes → ℕ
head_or_0 [] = 0
head_or_0 (x ∷ xs) = x

abbrev rest_of : Bytes → Bytes
rest_of [] = []
rest_of (x ∷ xs) = xs

-- The first bytes, padded with zeros.
abbrev pad : ℕ → Bytes → Bytes
pad zero k = []
pad (suc n) k = head_or_0 k ∷ pad n (rest_of k)

abbrev add_bytes : ℕ → Bytes → Bytes → Bytes
add_bytes zero a k = []
add_bytes (suc n) a k = (head_or_0 a + head_or_0 k) ∷ add_bytes n (rest_of a) (rest_of k)

length-pad : (n : ℕ) (k : Bytes) → length (pad n k) ≡ n
length-pad zero k = refl
length-pad (suc n) k = ap suc (length-pad n (rest_of k))

length-add_bytes : (n : ℕ) (a k : Bytes) → length (add_bytes n a k) ≡ n
length-add_bytes zero a k = refl
length-add_bytes (suc n) a k = ap suc (length-add_bytes n (rest_of a) (rest_of k))

add_bytes-pad : (n : ℕ) (a k : Bytes) → add_bytes n a (pad n k) ≡ add_bytes n a k
add_bytes-pad zero a k = refl
add_bytes-pad (suc n) a k =
    ap (λ t. (head_or_0 a + head_or_0 k) ∷ t) (add_bytes-pad n (rest_of a) (rest_of k))

add_bytes_comm : (n : ℕ) (a k : Bytes) → add_bytes n a k ≡ add_bytes n k a
add_bytes_comm zero a k = refl
add_bytes_comm (suc n) a k = ground (arith, add_bytes_comm n (rest_of a) (rest_of k))

abbrev unmask : Bytes → Bytes
unmask [] = []
unmask (b ∷ bs) = (b - 1) ∷ unmask bs

abbrev mask : Bytes → Bytes
mask [] = []
mask (b ∷ bs) = (b + 1) ∷ mask bs

unmask-mask : (m : Bytes) → unmask (mask m) ≡ m
unmask-mask [] = refl
unmask-mask (b ∷ bs) = ground (arith, unmask-mask bs)

abbrev pub primitives : Primitives
primitives = record {
  hex_decode = decode 0;
  hex_encode = encode;
  public_key = pad 32;
  diffie_hellman = add_bytes 32;
  aes_encrypt = λ k n m. some (mask m);
  aes_decrypt = λ k n c. some (unmask c);
}

pub primitives-IsSound : IsSound primitives
primitives-IsSound = record {
  hex_digits = encode-hex;
  hex_roundtrip = decode-encode;
  key_length = length-pad 32;
  secret_length = length-add_bytes 32;
  exchange = λ a b. add_bytes-pad 32 a b ∙ add_bytes_comm 32 a b ∙ sym (add_bytes-pad 32 b a);
  aes_roundtrip = λ k n m c h. ground (arith, unmask-mask m);
}
