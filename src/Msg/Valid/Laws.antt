-- ===== src/Msg/Valid/Laws.antt =====
-- A computed message id is a valid one.
use ii_go.Base.{
  ◌==◌, Bool-cases, length, take, length-take, All, All-take, All-imp, Bytes, Lacks, IsByte, ℕ, suc,
  ◌+◌, ◌-◌, ◌*◌, ◌%◌, ◌≡◌, refl, ap, ◌≢◌, inl, inr, true, [], ◌∷◌, arith,
}
use ii_go.Strings.{replace}
use ii_go.Base64
use ii_go.Msg.Valid.{is_msg_id, make_msg_id}
use ii_go.Base64.RoundTrip.{IsText, encode-IsText}
use ii_go.Strings.Split.{Lacks-contains}

length-replace : (s : Bytes) (a b : ℕ) → length (replace s a b) ≡ length s
unfolding replace
length-replace [] a b = refl
length-replace (c ∷ s) a b = ap suc (length-replace s a b)

All-replace : (P : ℕ → Type 0) (s : Bytes) (a b : ℕ) → P b → All P s → All P (replace s a b)
unfolding replace
All-replace P [] a b pb h = tt
All-replace P (c ∷ s) a b pb h = elim (Bool-cases (c == a)) [
  | inl e ↦ rw e (pb, All-replace P s a b pb h.1)
  | inr e ↦ rw e (h.0, All-replace P s a b pb h.1)
]

-- Four digits for each three bytes, or part of three.
length-encode :
    (s : Bytes)
    → 3 * length (Base64.encode Base64.std s) ≡ 4 * length s + 4 * ((3 - length s % 3) % 3)
unfolding Base64.encode
length-encode [] = omega arith
length-encode (a ∷ []) = omega arith
length-encode (a ∷ b ∷ []) = omega arith
length-encode (a ∷ b ∷ c ∷ s) = omega (arith, length-encode s)

-- What is known of a SHA-256 digest: it has 32 bytes.
pub record IsDigest (sha256 : Bytes → Bytes) : Type 0 where
  pub size : (s : Bytes) → length (sha256 s) ≡ 32
  pub bytes : (s : Bytes) → All IsByte (sha256 s)

abbrev NoDot : ℕ → Type 0
NoDot c = (c ≢ b'.') × (c ≢ b':')

-- The id that MsgId computes from a digest of 32 bytes is valid and holds no colon.
pub make_msg_id-is_msg_id :
    (sha256 : Bytes → Bytes) (s : Bytes)
    → IsDigest sha256
    → (is_msg_id (make_msg_id sha256 s) ≡ true) × Lacks b':' (make_msg_id sha256 s)
unfolding make_msg_id is_msg_id
make_msg_id-is_msg_id sha256 s d =
    let b64 = Base64.encode Base64.std (sha256 s) in
    let text : All NoDot b64 =
      All-imp IsText NoDot (λ c p. (omega arith, omega arith)) b64
        (encode-IsText (sha256 s) (d.bytes s)) in
    let id = replace (replace b64 b'+' b'A') b'/' b'Z' in
    let clean : All NoDot (take 20 id) = All-take NoDot 20 id (
      All-replace NoDot (replace b64 b'+' b'A') b'/' b'Z' (omega arith)
        (All-replace NoDot b64 b'+' b'A' (omega arith) text)) in
    (
      ground (
        arith,
        length-take 20 id,
        length-replace (replace b64 b'+' b'A') b'/' b'Z',
        length-replace b64 b'+' b'A',
        length-encode (sha256 s),
        d.size s,
        Lacks-contains (take 20 id) b'.'
            (All-imp NoDot (λ c. c ≢ b'.') (λ c p. p.0) (take 20 id) clean),
      ),
      All-imp NoDot (λ c. c ≢ b':') (λ c p. p.1) (take 20 id) clean,
    )
