-- ===== src/Contact/Links.antt =====
-- crates/contact/src/lib.rs: a link is read as it was written.
use onestein.Base.{
  ℕ, zero, suc, ◌+◌, ◌-◌, ◌/◌, ◌%◌, ◌^◌, bit_and, bit_or, ◌≡◌, refl, ap, ◌∙◌, inl, inr, true, false,
  some, [], ◌∷◌, ◌++◌, arith, ltb, leb, ◌==◌, ==_iff, ==_refl, Bool-cases, length, All,
  length-append, take-append, drop-append, All-append, ok,
}
use onestein.Base.Bytes.{Bytes, IsByte, IsArray}
use onestein.Crypto.{hash_len}
use onestein.Base.Bits.{bit_and-ones}
use onestein.Contact.Base32.{encode, encode_from, emit, decode, symbol, is_whitespace, shl}
use onestein.Contact.Base32.Symbols.{symbol_back}
use onestein.Contact.Base32.RoundTrip.{decode-encode}
use onestein.Contact.{
  ContactLink, link_prefix, to_text, trim_start, trim_end, strip_prefix, link_payload, parse,
  contact_key_len,
}

abbrev pub IsPlain : ℕ → Type 0
IsPlain c = is_whitespace c ≡ false

symbol-IsPlain : (v : ℕ) → IsPlain (symbol (bit_and v 0x1f))
symbol-IsPlain v = rw (bit_and-ones 5 v) (symbol_back (v % 32) (omega arith)).0

emit-IsPlain : (rounds buffer bits : ℕ) → All IsPlain (emit rounds buffer bits).0
emit-IsPlain zero buffer bits = tt
emit-IsPlain (suc rounds) buffer bits = elim (Bool-cases (leb 5 bits)) [
  | inl more ↦
      rw more (symbol-IsPlain (buffer / 2 ^ (bits - 5)), emit-IsPlain rounds buffer (bits - 5))
  | inr done ↦ rw done tt
]

encode_from-IsPlain : (buffer bits : ℕ) (bs : Bytes) → All IsPlain (encode_from buffer bits bs)
unfolding encode_from
encode_from-IsPlain buffer bits [] = elim (Bool-cases (ltb 0 bits)) [
  | inl more ↦ rw more (symbol-IsPlain (shl buffer (5 - bits)), tt)
  | inr done ↦ rw done tt
]
encode_from-IsPlain buffer bits (b ∷ bs) =
    let next = bit_or (shl buffer 8) b in
    All-append IsPlain (emit (bits + 8) next (bits + 8)).0 _
      (emit-IsPlain (bits + 8) next (bits + 8))
      (encode_from-IsPlain next (emit (bits + 8) next (bits + 8)).1 bs)

trim_end-plain : (cs : Bytes) → All IsPlain cs → trim_end cs ≡ cs
trim_end-plain [] h = refl
trim_end-plain (c ∷ cs) h = rw (h.0, trim_end-plain cs h.1) refl

strip_prefix-append : (ps cs : Bytes) → strip_prefix ps (ps ++ cs) ≡ some cs
strip_prefix-append [] cs = refl
strip_prefix-append (p ∷ ps) cs = rw (==_refl p, strip_prefix-append ps cs) refl

trimmed :
    (cs : Bytes) → All IsPlain cs → trim_end (trim_start (link_prefix ++ cs)) ≡ link_prefix ++ cs
trimmed cs h =
    trim_end-plain (link_prefix ++ cs)
      (refl, (refl, (refl, (refl, (refl, (refl, (refl, (refl, (refl, (refl, (refl, h)))))))))))

link_payload-prefix : (cs : Bytes) → All IsPlain cs → link_payload (link_prefix ++ cs) ≡ some cs
unfolding link_payload
link_payload-prefix cs h =
    ap (strip_prefix link_prefix) (trimmed cs h) ∙ strip_prefix-append link_prefix cs

-- A link is read as it was written.
pub parse-to_text :
    (link : ContactLink)
    → IsArray contact_key_len link.contact_key
    → IsArray hash_len link.commitment
    → parse (to_text link) ≡ ok link
unfolding parse to_text encode
parse-to_text link hk hc =
    let bytes = link.contact_key ++ link.commitment in
    let text = encode_from 0 0 bytes in
    let read : decode text ≡ ok bytes =
      decode-encode bytes (All-append IsByte link.contact_key link.commitment hk.1 hc.1) in
    let size : (length bytes == 64) ≡ true =
      (==_iff _ 64).1 (omega (arith, length-append link.contact_key link.commitment, hk.0, hc.0)) in
    let front = take-append link.contact_key link.commitment 32 hk.0 in
    let back = drop-append link.contact_key link.commitment 32 hc' in
    rw (link_payload-prefix text (encode_from-IsPlain 0 0 bytes), read)
      (rw (size, front, back, (==_iff _ 32).1 hk.0, (==_iff _ 32).1 hc.0) refl)
  where
    hc' : length link.contact_key ≡ 32
    hc' = hk.0
