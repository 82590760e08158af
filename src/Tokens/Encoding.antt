-- ===== src/Tokens/Encoding.antt =====
-- The unpadded base64 of a token can be decoded.
use formula1_dashboard.Common.{
  ℕ, zero, suc, ◌+◌, ◌-◌, ◌%◌, ◌≤◌, ◌<◌, ◌≡◌, ◌≢◌, refl, ap, sym, ◌∙◌, some, List, [], ◌∷◌, ◌++◌,
  arith, length, All,
}
use formula1_dashboard.Tokens.{Crypto, encode, decode, rstrip, repeat}

-- A character of the base64url alphabet: ASCII, and neither the padding nor the separator of a token.
abbrev pub IsPlain : ℕ → Type 0
IsPlain c = (c < 128) × (c ≢ b'=') × (c ≢ b'.')

-- What the documentation of base64 says of the encoding of `raw`: plain characters and at most two
-- padding characters, to a multiple of four, which decode to `raw`.
pub record Encodes (crypto : Crypto) (raw : List ℕ) : Type 0 where
  pub body : List ℕ
  pub padding : ℕ
  pub split : crypto.b64encode raw ≡ body ++ repeat b'=' padding
  pub plain : All IsPlain body
  pub nonempty : body ≢ []
  pub short : padding ≤ 2
  pub fourths : (length body + padding) % 4 ≡ 0
  pub decodes : crypto.b64decode (crypto.b64encode raw) ≡ some raw

rstrip-repeat : (n : ℕ) → rstrip (repeat b'=' n) ≡ []
unfolding rstrip repeat
rstrip-repeat zero = refl
rstrip-repeat (suc n) = ground (arith, rstrip-repeat n)

rstrip-plain : (body : List ℕ) (n : ℕ) → All IsPlain body → rstrip (body ++ repeat b'=' n) ≡ body
unfolding rstrip
rstrip-plain [] n a = rstrip-repeat n
rstrip-plain (c ∷ []) n a = ground (arith, rstrip-repeat n)
rstrip-plain (c ∷ d ∷ body) n a = ground (arith, rstrip-plain (d ∷ body) n)

module _ (crypto : Crypto) (raw : List ℕ) where
  pub encode-body : (e : Encodes crypto raw) → encode crypto raw ≡ e.body
  unfolding encode
  encode-body e = ap rstrip e.split ∙ rstrip-plain e.body e.padding e.plain

  -- The padding that the decoder puts back is the one that was stripped.
  padding-back : (n k : ℕ) → k ≤ 2 → (n + k) % 4 ≡ 0 → (4 - n % 4) % 4 ≡ k
  padding-back n k h e = omega arith

  pub decode-encode : Encodes crypto raw → decode crypto (encode crypto raw) ≡ some raw
  unfolding decode
  decode-encode e =
      let back = padding-back (length e.body) e.padding e.short e.fourths in
      let padded : decode crypto e.body ≡ crypto.b64decode (e.body ++ repeat b'=' e.padding) =
        ap (λ k. crypto.b64decode (e.body ++ repeat b'=' k)) back in
      ap (decode crypto) (encode-body e) ∙ padded ∙ ap crypto.b64decode (sym e.split) ∙ e.decodes
