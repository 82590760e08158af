-- ===== src/Examples/Sealed.antt =====
-- The theorems on tokens, with toy libraries: a byte is encoded as a letter, another letter and two
-- padding characters.
use formula1_dashboard.Common.{
  ℕ, ◌+◌, ◌-◌, ◌*◌, ◌≤◌, ◌<◌, ◌≡◌, refl, some, List, [], ◌∷◌, ok, err, arith, length, ltb,
  if◌then◌else◌,
}
use formula1_dashboard.Tokens.{
  session, object, Crypto, payload_of, issue_token, read_token, partition, repeat, seconds, expired,
  max_token_length,
}
use formula1_dashboard.Tokens.Encoding.{Encodes}
use formula1_dashboard.Tokens.Reading.{
  Promises, Signed, claims_of, read_token-issue_token, read_token-Signed,
}

abbrev first_of : List ℕ → ℕ
first_of [] = 0
first_of (c ∷ cs) = c

abbrev crypto : Crypto
crypto = record {
  b64encode = λ raw. (b'A' + first_of raw) ∷ b'A' ∷ b'=' ∷ b'=' ∷ [];
  b64decode = λ text. some ((first_of text - b'A') ∷ []);
  digest = λ secret_key encoded. 2 ∷ [];
  dumps = λ payload. 1 ∷ [];
  loads = λ bytes. some (object (payload_of session 3000000 5000000));
}

encodes : (raw : ℕ) → raw < 20 → Encodes crypto (raw ∷ [])
unfolding repeat
encodes raw h = record {
  body = (b'A' + raw) ∷ b'A' ∷ [];
  padding = 2;
  split = refl;
  plain = ground arith;
  nonempty = λ e. ground arith;
  short = omega arith;
  fourths = refl;
  decodes = ground arith;
}

promises : Promises crypto [] (payload_of session 3000000 5000000)
promises = record {
  payload_encodes = encodes 1 (omega arith);
  digest_encodes = encodes 2 (omega arith);
  reads_back = refl;
}

token_length : length (issue_token crypto session [] 3000000 5000000) ≤ max_token_length
unfolding issue_token
token_length = omega arith

read_token-issue_token_example :
    read_token crypto [] 6000000 (some (issue_token crypto session [] 3000000 5000000)) ≡ (
      if ltb 6000000 (seconds (5000000 + 3000000) * 1000000)
      then ok (claims_of session 3000000 5000000)
      else err expired)
read_token-issue_token_example =
    read_token-issue_token crypto [] session 3000000 5000000 6000000 promises token_length
      (omega arith)

accepted :
    read_token crypto [] 6000000 (some (issue_token crypto session [] 3000000 5000000))
    ≡ ok (claims_of session 3000000 5000000)
unfolding read_token issue_token
accepted = refl

read_token-Signed_example :
    (encoded : List ℕ) × (signature : List ℕ) × (partition
        (issue_token crypto session [] 3000000 5000000)
      ≡ some (encoded, signature))
    × Signed crypto [] (claims_of session 3000000 5000000) encoded signature
    × (length (issue_token crypto session [] 3000000 5000000) ≤ max_token_length)
    × (6000000 < (claims_of session 3000000 5000000).expires_at)
read_token-Signed_example =
    read_token-Signed crypto [] 6000000 (issue_token crypto session [] 3000000 5000000)
      (claims_of session 3000000 5000000) accepted
