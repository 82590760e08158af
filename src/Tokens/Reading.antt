-- ===== src/Tokens/Reading.antt =====
-- Tokens that were issued are read back, and only what was signed is read.
use formula1_dashboard.Common.{
  ℕ, ◌+◌, ◌*◌, ◌≤◌, ◌<◌, ◌≡◌, ◌≢◌, refl, sym, ◌∙◌, true, false, some, List, [], ◌∷◌, ◌++◌, ok, err,
  arith, length, if◌then◌else◌, All, any, leb, ltb, Outcome-cases, Option-cases, inl, inr,
}
use formula1_dashboard.Policy.Settings.{same_list}
use formula1_dashboard.Policy.Checkpoints.{same_list-eq}
use formula1_dashboard.Tokens.{
  TokenKind, AccessToken, Payload, object, not_object, Crypto, max_timestamp, max_token_length,
  seconds, encode, decode, sign, payload_of, issue_token, read_payload, read_json, read_parts,
  read_token, partition, from_timestamp, expired,
}
use formula1_dashboard.Tokens.Encoding.{IsPlain, Encodes, encode-body, decode-encode}

same_list_refl : (xs : List ℕ) → same_list xs xs ≡ true
unfolding same_list
same_list_refl [] = refl
same_list_refl (x ∷ xs) = ground (arith, same_list_refl xs)

-- The separator splits after the plain characters before it.
partition-plain :
    (body after : List ℕ)
    → All IsPlain body
    → partition (body ++ (b'.' ∷ after)) ≡ some (body, after)
unfolding partition
partition-plain [] after a = ground arith
partition-plain (c ∷ body) after a = ground (arith, partition-plain body after)

any-ascii :
    (body after : List ℕ)
    → All IsPlain body
    → any (λ c. leb 128 c) (body ++ (b'.' ∷ after)) ≡ any (λ c. leb 128 c) after
unfolding any
any-ascii [] after a = ground arith
any-ascii (c ∷ body) after a = ground (arith, any-ascii body after)

any-plain : (body : List ℕ) → All IsPlain body → any (λ c. leb 128 c) body ≡ false
unfolding any
any-plain [] a = refl
any-plain (c ∷ body) a = ground (arith, any-plain body)

-- What a payload within the range of timestamps is read as.
abbrev pub claims_of : TokenKind → ℕ → ℕ → AccessToken
claims_of kind lifetime now = record {
  kind = kind;
  issued_at = seconds now * 1000000;
  expires_at = seconds (now + lifetime) * 1000000;
}

read_payload-claims :
    (kind : TokenKind) (lifetime now at : ℕ)
    → seconds (now + lifetime) ≤ max_timestamp
    → read_payload at (payload_of kind lifetime now) ≡ (
        if ltb at (seconds (now + lifetime) * 1000000)
        then ok (claims_of kind lifetime now)
        else err expired)
unfolding read_payload from_timestamp
read_payload-claims kind lifetime now at h = ground arith

-- What the libraries promise for one token: the encodings of its payload and of its digest, and that
-- JSON reads back the payload it wrote.
pub record Promises (crypto : Crypto) (secret_key : List ℕ) (payload : Payload) : Type 0 where
  pub payload_encodes : Encodes crypto (crypto.dumps payload)
  pub digest_encodes :
      Encodes crypto (crypto.digest secret_key (encode crypto (crypto.dumps payload)))
  pub reads_back : crypto.loads (crypto.dumps payload) ≡ some (object payload)

encode-IsPlain :
    (crypto : Crypto) (raw : List ℕ) → Encodes crypto raw → All IsPlain (encode crypto raw)
encode-IsPlain crypto raw e = rw (encode-body crypto raw e) e.plain

read_token-split :
    (crypto : Crypto) (secret_key : List ℕ) (at : ℕ) (encoded signature : List ℕ)
    → All IsPlain encoded
    → All IsPlain signature
    → length (encoded ++ (b'.' ∷ signature)) ≤ max_token_length
    → read_token crypto secret_key at (some (encoded ++ (b'.' ∷ signature)))
      ≡ read_parts crypto secret_key at encoded signature
unfolding read_token
read_token-split crypto secret_key at [] signature p q short =
    ground (arith, any-plain signature, partition-plain [] signature, any-ascii [] signature)
read_token-split crypto secret_key at (c ∷ encoded) signature p q short = ground (
  arith,
  any-plain signature,
  partition-plain (c ∷ encoded) signature,
  any-ascii (c ∷ encoded) signature,
)

module _ (crypto : Crypto) (secret_key : List ℕ) (kind : TokenKind) (lifetime now at : ℕ) where
  read_parts-issued :
      Promises crypto secret_key (payload_of kind lifetime now)
      → read_parts crypto secret_key at
          (encode crypto (crypto.dumps (payload_of kind lifetime now)))
          (sign crypto (encode crypto (crypto.dumps (payload_of kind lifetime now))) secret_key)
        ≡ read_payload at (payload_of kind lifetime now)
  unfolding read_parts read_json sign
  read_parts-issued p =
      let payload = payload_of kind lifetime now in
      let encoded = encode crypto (crypto.dumps payload) in
      let signature = sign crypto encoded secret_key in
      let one : encoded ≢ [] = λ e.
        p.payload_encodes.nonempty
          (sym (encode-body crypto (crypto.dumps payload) p.payload_encodes) ∙ e) in
      let two : signature ≢ [] = λ e.
        p.digest_encodes.nonempty
          (sym (encode-body crypto (crypto.digest secret_key encoded) p.digest_encodes) ∙ e) in
      ground (
        arith,
        one,
        two,
        same_list_refl signature,
        decode-encode crypto (crypto.dumps payload) p.payload_encodes,
        p.reads_back,
      )

  -- A token that was issued, of a length that is accepted and within the range of timestamps, is read
  -- back as its kind and its times, cut to whole seconds, before the second it expires at, and is
  -- refused as expired from then on. The libraries are taken at their word: base64 gives plain
  -- characters and padding that it decodes, and JSON reads back what it wrote.
  pub read_token-issue_token :
      Promises crypto secret_key (payload_of kind lifetime now)
      → length (issue_token crypto kind secret_key lifetime now) ≤ max_token_length
      → seconds (now + lifetime) ≤ max_timestamp
      → read_token crypto secret_key at (some (issue_token crypto kind secret_key lifetime now)) ≡ (
          if ltb at (seconds (now + lifetime) * 1000000)
          then ok (claims_of kind lifetime now)
          else err expired)
  unfolding issue_token sign
  read_token-issue_token p short range =
      let payload = payload_of kind lifetime now in
      let encoded = encode crypto (crypto.dumps payload) in
      let signature = sign crypto encoded secret_key in
      read_token-split crypto secret_key at encoded signature
        (encode-IsPlain crypto (crypto.dumps payload) p.payload_encodes)
        (encode-IsPlain crypto (crypto.digest secret_key encoded) p.digest_encodes) short
      ∙ read_parts-issued p
      ∙ read_payload-claims kind lifetime now at range

-- What a token that is read is made of.
pub record Signed (crypto : Crypto) (secret_key : List ℕ) (a : AccessToken)
    (encoded signature : List ℕ) : Type 0 where
  pub bytes : List ℕ
  pub payload : Payload
  pub signature_matches : signature ≡ sign crypto encoded secret_key
  pub decodes : decode crypto encoded ≡ some bytes
  pub parses : crypto.loads bytes ≡ some (object payload)
  pub kind : payload.kind ≡ some a.kind

read_payload-kind :
    (at : ℕ) (payload : Payload) (a : AccessToken)
    → read_payload at payload ≡ ok a
    → (payload.kind ≡ some a.kind) × (at < a.expires_at)
unfolding read_payload
read_payload-kind at payload a h = elim (Option-cases payload.kind) [
  | inl e ↦ absurd (ground arith)
  | inr (kind, e) ↦ elim (Outcome-cases (from_timestamp payload.iat)) [
    | inr bad ↦ absurd (ground arith)
    | inl (issued_at, e') ↦ elim (Outcome-cases (from_timestamp payload.exp)) [
      | inr bad ↦ absurd (ground arith)
      | inl (expires_at, e'') ↦ ground arith
    ]
  ]
]

read_parts-Signed :
    (crypto : Crypto) (secret_key : List ℕ) (at : ℕ) (encoded signature : List ℕ) (a : AccessToken)
    → read_parts crypto secret_key at encoded signature ≡ ok a
    → Signed crypto secret_key a encoded signature × (at < a.expires_at)
unfolding read_parts read_json
read_parts-Signed crypto secret_key at encoded signature a h =
    elim (Option-cases (decode crypto encoded)) [
      | inl e ↦ absurd (ground arith)
      | inr (bytes, e) ↦ elim (Option-cases (crypto.loads bytes)) [
        | inl e' ↦ absurd (ground arith)
        | inr (not_object, e') ↦ absurd (ground arith)
        | inr (object payload, e') ↦
            let read : read_payload at payload ≡ ok a = ground arith in
            let (kind, later) = read_payload-kind at payload a read in
            (
              record {
                bytes = bytes;
                payload = payload;
                signature_matches =
                    ground (arith, same_list-eq (sign crypto encoded secret_key) signature);
                decodes = e;
                parses = e';
                kind = kind;
              },
              later,
            )
      ]
    ]

-- A token that is read splits at its first separator into a payload that parses and the signature of
-- that payload under the key, is of the kind that the payload names, is not longer than accepted, and
-- has not expired.
pub read_token-Signed :
    (crypto : Crypto) (secret_key : List ℕ) (at : ℕ) (token : List ℕ) (a : AccessToken)
    → read_token crypto secret_key at (some token) ≡ ok a
    → (encoded : List ℕ) × (signature : List ℕ) × (partition token ≡ some (encoded, signature))
      × Signed crypto secret_key a encoded signature
      × (length token ≤ max_token_length)
      × (at < a.expires_at)
unfolding read_token
read_token-Signed crypto secret_key at token a h = elim (Option-cases (partition token)) [
  | inl e ↦ absurd (ground arith)
  | inr ((encoded, signature), e) ↦
      let (signed, later) =
        read_parts-Signed crypto secret_key at encoded signature a (ground arith) in
      (encoded, signature, e, signed, ground arith, later)
]
