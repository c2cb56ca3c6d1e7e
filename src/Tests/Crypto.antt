-- ===== src/Tests/Crypto.antt =====
-- _dbcrypto.py on small libraries: a cipher that changes nothing, a constant digest, a base64 that writes
-- a byte `b` as `b` times `AAAA` and then `BAAA`, and a UTF-8 that knows one text.
use native.Mathlib.Decide.{ℕ_discrete}
use zabbig.Prelude.{
  ℕ, string_eq, zero, suc, ◌+◌, ◌%◌, ◌≡◌, refl, sym, ap, ◌∙◌, String, Bool, true, false, none, some,
  [], ◌∷◌, ◌++◌, length, ltb, ◌==◌, nat_eq, if◌then◌else◌, Result, ok, ok-ne-err, ◌>>=◌, arith,
}
use zabbig.Prelude.Affix.{
  AreKept, rstrip-kept, lstrip-kept, append, rstrip, rstrip-append, lstrip, is_space, strip,
}
use zabbig.Prelude.Text.{codes}
use Prim.Native.Char.{code}
use zabbig.Crypto.{
  Bytes, Primitives, repeat_byte, pad, unpad, without_padding, encrypt, decrypt, key_to_str,
}
use zabbig.Crypto.Contract.{IsCbc, IsBase64, IsSha256}
use zabbig.Crypto.Padding.{length-repeat_byte, unpad-pad}
use zabbig.Crypto.Token.{decrypt-encrypt}
use zabbig.Crypto.Script.{main, to_encrypt, to_decrypt}
use zabbig.Crypto.Script.Recovered.{main-recovers}
use zabbig.Crypto.Keys.{KeyStore, load_key, load_or_create_key, save_key}

abbrev pub four : String → String → String
four c s = append c (append "AAA" s)

abbrev pub toy_byte : ℕ → String → String
toy_byte zero s = four "B" s
toy_byte (suc n) s = four "A" (toy_byte n s)

abbrev pub toy_encode : Bytes → String
toy_encode [] = ""
toy_encode (b ∷ bytes) = toy_byte b (toy_encode bytes)

abbrev pub toy_decode : ℕ → String → Bytes
toy_decode n (String.◌∷◌ c (String.◌∷◌ _ (String.◌∷◌ _ (String.◌∷◌ _ s)))) =
    if ltb (code c) b'B' then toy_decode (n + 1) s else n ∷ toy_decode 0 s
toy_decode n _ = []

toy_decode-byte : (n b : ℕ) (s : String) → toy_decode n (toy_byte b s) ≡ (n + b) ∷ toy_decode 0 s
toy_decode-byte n zero s = ap (λ k. k ∷ toy_decode 0 s) (omega arith)
toy_decode-byte n (suc b) s =
    toy_decode-byte (n + 1) b s ∙ ap (λ k. k ∷ toy_decode 0 s) (omega arith)

toy_decode-encode : (bytes : Bytes) → toy_decode 0 (toy_encode bytes) ≡ bytes
toy_decode-encode [] = refl
toy_decode-encode (b ∷ bytes) =
    toy_decode-byte 0 b (toy_encode bytes)
    ∙ ap (λ r. (0 + b) ∷ r) (toy_decode-encode bytes)
    ∙ ap (λ k. k ∷ bytes) (omega arith)

module _ (test : ℕ → Bool) (a : test b'A' ≡ false) (b : test b'B' ≡ false) where
  toy_byte-kept : (n : ℕ) (s : String) → AreKept test s → AreKept test (toy_byte n s)
  toy_byte-kept zero s h = (b, (a, (a, (a, h))))
  toy_byte-kept (suc n) s h = (a, (a, (a, (a, toy_byte-kept n s h))))

  toy_encode-kept : (bytes : Bytes) → AreKept test (toy_encode bytes)
  toy_encode-kept [] = tt
  toy_encode-kept (n ∷ bytes) = toy_byte-kept n (toy_encode bytes) (toy_encode-kept bytes)

letters : (is_space b'A' ≡ false) × (is_space b'B' ≡ false)
unfolding is_space
letters = (refl, refl)

without_padding-toy_encode : (bytes : Bytes) → without_padding (toy_encode bytes) ≡ toy_encode bytes
unfolding without_padding
without_padding-toy_encode bytes =
    rstrip-kept (λ c. c == b'=') (toy_encode bytes)
      (toy_encode-kept (λ c. c == b'=') (ground arith) (ground arith) bytes)

lstrip-toy_byte : (n : ℕ) (s : String) → lstrip is_space (toy_byte n s) ≡ toy_byte n s
lstrip-toy_byte zero s = lstrip-kept is_space "B" _ letters.1
lstrip-toy_byte (suc n) s = lstrip-kept is_space "A" _ letters.0

append-toy_byte : (n : ℕ) (s t : String) → append (toy_byte n s) t ≡ toy_byte n (append s t)
append-toy_byte zero s t = refl
append-toy_byte (suc n) s t = ap (four "A") (append-toy_byte n s t)

rstrip-toy_encode : (bytes : Bytes) → rstrip is_space (toy_encode bytes) ≡ toy_encode bytes
rstrip-toy_encode bytes =
    rstrip-kept is_space (toy_encode bytes) (toy_encode-kept is_space letters.0 letters.1 bytes)

strip-nothing : strip "" ≡ ""
unfolding strip rstrip lstrip
strip-nothing = refl

strip-break : strip "\n" ≡ ""
unfolding strip rstrip lstrip is_space
strip-break = refl

strip-toy_encode : (bytes : Bytes) → strip (toy_encode bytes) ≡ toy_encode bytes
unfolding strip
strip-toy_encode [] = strip-nothing
strip-toy_encode (n ∷ bytes) =
    ap (rstrip is_space) (lstrip-toy_byte n (toy_encode bytes)) ∙ rstrip-toy_encode (n ∷ bytes)

break_is_space : is_space (code "\n") ≡ true
unfolding is_space
break_is_space = refl

strip-toy_encode_line : (bytes : Bytes) → strip (append (toy_encode bytes) "\n") ≡ toy_encode bytes
unfolding strip
strip-toy_encode_line [] = strip-break
strip-toy_encode_line (n ∷ bytes) =
    ap (λ s. rstrip is_space (lstrip is_space s)) (append-toy_byte n (toy_encode bytes) "\n")
    ∙ ap (rstrip is_space) (lstrip-toy_byte n (append (toy_encode bytes) "\n"))
    ∙ ap (rstrip is_space) (sym (append-toy_byte n (toy_encode bytes) "\n"))
    ∙ rstrip-append is_space (toy_encode (n ∷ bytes)) "\n" 1 break_is_space
    ∙ rstrip-toy_encode (n ∷ bytes)

fours-toy_byte :
    (n : ℕ) (s : String) → length (codes s) % 4 ≡ 0 → length (codes (toy_byte n s)) % 4 ≡ 0
fours-toy_byte zero s h = omega (arith, h)
fours-toy_byte (suc n) s h = omega (arith, fours-toy_byte n s h)

fours-toy_encode : (bytes : Bytes) → length (codes (toy_encode bytes)) % 4 ≡ 0
fours-toy_encode [] = omega arith
fours-toy_encode (n ∷ bytes) = fours-toy_byte n (toy_encode bytes) (fours-toy_encode bytes)

append-nothing : (s : String) → s ≡ append s ""
append-nothing String.[] = refl
append-nothing (String.◌∷◌ c s) = ap (λ r. String.◌∷◌ c r) (append-nothing s)

abbrev pub toy : Primitives
toy = record {
  Cipher = Unit;
  new = λ key iv. ok tt;
  encrypt_block = λ aes block. ok (block, aes);
  decrypt_block = λ aes block. ok (block, aes);
  digest = λ key message. repeat_byte 7 32;
  b64encode = toy_encode;
  b64decode = λ s. ok (toy_decode 0 s);
  encode = λ s. 104 ∷ 105 ∷ [];
  decode = λ bytes. ok "hi";
}

toy-IsBase64 : IsBase64 toy
toy-IsBase64 = record {
  body = toy_encode;
  padding = λ b. 0;
  shape = λ b. append-nothing (toy_encode b);
  few = λ b. omega arith;
  fours = fours-toy_encode;
  bare = without_padding-toy_encode;
  solid = strip-toy_encode_line;
  solid_alone = strip-toy_encode;
  inverse = λ b. ap ok (toy_decode-encode b);
  refuses = λ s e h. absurd (ok-ne-err _ e h);
}

toy-IsCbc : (key iv : Bytes) → IsCbc toy key iv
toy-IsCbc key iv = record {
  Paired = λ e d. Unit;
  aes = tt;
  started = refl;
  fresh = tt;
  step = λ e d block paired size. (block, tt, tt, refl, size, refl, tt);
}

toy-IsSha256 : IsSha256 toy
toy-IsSha256 = record { size = λ key message. length-repeat_byte 7 32 }

abbrev pub toy_key : Bytes
toy_key = repeat_byte 9 32

decrypt-encrypt_example :
    (encrypt toy (repeat_byte 3 16) "hi" toy_key >>= λ token. decrypt toy token toy_key) ≡ ok "hi"
decrypt-encrypt_example =
    decrypt-encrypt toy toy_key (repeat_byte 3 16) "hi" (toy-IsCbc toy_key (repeat_byte 3 16))
      toy-IsBase64 refl toy-IsSha256 refl

abbrev pub padded_key : Bytes
padded_key = repeat_byte 9 32 ++ repeat_byte 16 16

unpad-padded_key : unpad padded_key ≡ ok (repeat_byte 9 32)
unfolding pad
unpad-padded_key = unpad-pad (repeat_byte 9 32)

abbrev empty_store : KeyStore
empty_store = record { variable = none; key_file = none; can_write = true }

abbrev pub filled_store : KeyStore
filled_store = record {
  variable = none;
  key_file = some (append (toy_encode toy_key) "\n");
  can_write = true;
}

key_is_made :
    Path
      (Result Bytes × KeyStore)
      (load_or_create_key toy toy_key empty_store)
      (ok toy_key, filled_store)
unfolding load_or_create_key load_key save_key key_to_str without_padding rstrip lstrip strip
    string_eq nat_eq ℕ_discrete
key_is_made = refl

abbrev hi : String
hi = "hi"

hi-filled : (hi == "") ≡ false
unfolding string_eq
hi-filled = refl

main-recovers_example :
    (token : String) × (main toy toy_key (repeat_byte 3 16) (to_encrypt "hi") empty_store
      ≡ (ok (0, some token), filled_store))
    × (main toy toy_key (repeat_byte 4 16) (to_decrypt token) filled_store
        ≡ (ok (0, some "hi"), filled_store))
main-recovers_example =
    main-recovers toy toy_key (repeat_byte 3 16) (repeat_byte 4 16) toy_key toy_key "hi" empty_store
      filled_store (λ key size. toy-IsCbc key (repeat_byte 3 16)) toy-IsBase64 toy-IsSha256 refl
      refl refl hi-filled key_is_made
