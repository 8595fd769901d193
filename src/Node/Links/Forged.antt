-- ===== src/Node/Links/Forged.antt =====
-- ii-node/web.go: a text that looks like the mark of a link.
use ii_go.Base.{
  ◌==◌, Bool-cases, length, drop, drop_nil, drop-length-append, All, All-append, All-imp, Bytes,
  codes, Lacks, err, ℕ, zero, suc, ◌+◌, ◌≡◌, refl, sym, ap, ◌∙◌, ◌≢◌, ◌⊎◌, inl, inr, Bool, true,
  false, List, [], ◌∷◌, ◌++◌, append_assoc, arith,
}
use ii_go.Node.Html.{replace_by, str_esc}
use ii_go.Strings.{has_prefix}
use ii_go.Decimal.{is_digit}
use ii_go.Db.State.{index_out_of_range}
use ii_go.Node.Links.{
  run, behind, is_ii_char, ii_url, is_url_char, url, mark, ii_link, url_link, collect, link_at,
  before_rest, put_links, msg_esc,
}

-- A prefix that has a byte which the text lacks.
has_prefix-Lacks : (b : ℕ) (s p q : Bytes) → Lacks b s → has_prefix s (p ++ b ∷ q) ≡ false
unfolding has_prefix
has_prefix-Lacks b [] [] q h = refl
has_prefix-Lacks b (c ∷ s) [] q h = ground (arith, h.0)
has_prefix-Lacks b [] (d ∷ p) q h = refl
has_prefix-Lacks b (c ∷ s) (d ∷ p) q h = elim (Bool-cases (c == d)) [
  | inl e ↦ rw (e, has_prefix-Lacks b s p q h.1)
  | inr e ↦ rw e
]

behind-Lacks :
    (b : ℕ) (s p q : Bytes) (test : ℕ → Bool) → Lacks b s → behind (p ++ b ∷ q) test s ≡ 0
unfolding behind
behind-Lacks b s p q test h = rw (has_prefix-Lacks b s p q h)

ii_url-Lacks : (s : Bytes) → Lacks b':' s → ii_url s ≡ 0
unfolding ii_url
ii_url-Lacks s h = behind-Lacks b':' s (codes "ii") (codes "//") is_ii_char h

url-Lacks : (s : Bytes) → Lacks b':' s → url s ≡ 0
unfolding url
url-Lacks s h =
    rw
      (
        has_prefix-Lacks b':' s (codes "http") (codes "//") h,
        has_prefix-Lacks b':' s (codes "ftp") (codes "//") h,
        has_prefix-Lacks b':' s (codes "https") (codes "//") h,
      )
      (behind-Lacks b':' s (codes "gemini") (codes "//") is_url_char h)

-- A text without a colon has no links.
collect-Lacks :
    (match : Bytes → ℕ) (link : Bytes → Bytes) (s : Bytes) (links : List Bytes)
    → ((t : Bytes) → Lacks b':' t → match t ≡ 0)
    → Lacks b':' s
    → collect match link 0 s links ≡ (s, links)
unfolding collect
collect-Lacks match link [] links h k = refl
collect-Lacks match link (c ∷ s) links h k =
    rw (collect, h (c ∷ s) k, collect-Lacks match link s links h k.1)

msg_esc-Lacks : (l : Bytes) → Lacks b':' l → msg_esc l ≡ put_links [] 0 (str_esc l)
unfolding msg_esc
msg_esc-Lacks l h =
    rw (
      collect-Lacks ii_url ii_link l [] ii_url-Lacks h,
      collect-Lacks url url_link l [] url-Lacks h,
    )

run-append :
    (p : ℕ → Bool) (ds : Bytes) (c : ℕ) (s : Bytes)
    → All (λ d. p d ≡ true) ds
    → p c ≡ false
    → run p (ds ++ c ∷ s) ≡ length ds
unfolding run
run-append p [] c s h k = rw k
run-append p (d ∷ ds) c s h k = rw (h.0, run-append p ds c s h.1 k)

drop-add : (m n : ℕ) (s : Bytes) → drop (m + n) s ≡ drop n (drop m s)
drop-add zero n s = let e : 0 + n ≡ n = omega arith in rw e
drop-add (suc m) n [] = drop_nil (suc m + n) ∙ sym (drop_nil n)
drop-add (suc m) n (c ∷ s) = let e : suc m + n ≡ suc (m + n) = omega arith in rw e (drop-add m n s)

abbrev forged : Bytes → Bytes → Bytes
forged ds s = codes "{{{href=" ++ (ds ++ (codes "}}}" ++ s))

behind-forged :
    (d : ℕ) (ds s : Bytes)
    → All (λ c. is_digit c ≡ true) (d ∷ ds)
    → behind (codes "{{{href=") is_digit (forged (d ∷ ds) s) ≡ 8 + length (d ∷ ds)
unfolding behind has_prefix
behind-forged d ds s h =
    let r : run is_digit ((d ∷ ds) ++ (codes "}}}" ++ s)) ≡ length (d ∷ ds) =
      run-append is_digit (d ∷ ds) b'}' (codes "}}" ++ s) h refl in
    rw r (ground arith)

mark-forged :
    (d : ℕ) (ds s : Bytes)
    → All (λ c. is_digit c ≡ true) (d ∷ ds)
    → (n : ℕ) × (mark (forged (d ∷ ds) s) ≡ suc n)
unfolding mark has_prefix
mark-forged d ds s h =
    let at : drop (8 + length (d ∷ ds)) (forged (d ∷ ds) s) ≡ codes "}}}" ++ s =
      drop-add 8 (length (d ∷ ds)) (forged (d ∷ ds) s)
      ∙ drop-length-append (d ∷ ds) (codes "}}}" ++ s) in
    let some_digit : (8 + length (d ∷ ds) == 0) ≡ false = ground arith in
    let more : 8 + length (d ∷ ds) + 3 ≡ suc (10 + length (d ∷ ds)) = omega arith in
    (10 + length (d ∷ ds), rw (behind-forged d ds s h, at, some_digit) more)

unmarked : mark [] ≡ 0
unfolding mark behind run has_prefix
unmarked = refl

zero_or_suc : (n : ℕ) → (n ≡ 0) ⊎ ((m : ℕ) × (n ≡ suc m))
zero_or_suc zero = inl refl
zero_or_suc (suc n) = inr (n, refl)

put_links-mark : (t : Bytes) (n : ℕ) → mark t ≡ suc n → put_links [] 0 t ≡ err index_out_of_range
unfolding put_links link_at before_rest
put_links-mark [] n e = absurd (cc (e, unmarked))
put_links-mark (c ∷ t) n e = rw (put_links, e)

put_links-plain :
    (c : ℕ) (t : Bytes)
    → mark (c ∷ t) ≡ 0
    → put_links [] 0 t ≡ err index_out_of_range
    → put_links [] 0 (c ∷ t) ≡ err index_out_of_range
unfolding put_links before_rest
put_links-plain c t e h = rw (put_links, e, h)

put_links-forged :
    (x : Bytes) (d : ℕ) (ds s : Bytes)
    → All (λ c. is_digit c ≡ true) (d ∷ ds)
    → put_links [] 0 (x ++ forged (d ∷ ds) s) ≡ err index_out_of_range
put_links-forged [] d ds s h = let (n, e) = mark-forged d ds s h in put_links-mark _ n e
put_links-forged (c ∷ x) d ds s h = elim (zero_or_suc (mark (c ∷ (x ++ forged (d ∷ ds) s)))) [
  | inl e ↦ put_links-plain c _ e (put_links-forged x d ds s h)
  | inr (n, e) ↦ put_links-mark _ n e
]

replace_by-append :
    (s r : Bytes) (c : ℕ) (t : Bytes)
    → replace_by (s ++ r) c t ≡ replace_by s c t ++ replace_by r c t
unfolding replace_by
replace_by-append [] r c t = refl
replace_by-append (d ∷ s) r c t = elim (Bool-cases (d == c)) [
  | inl e ↦
      rw (e, replace_by-append s r c t) (sym (append_assoc t (replace_by s c t) (replace_by r c t)))
  | inr e ↦ rw (e, replace_by-append s r c t)
]

str_esc-append : (s r : Bytes) → str_esc (s ++ r) ≡ str_esc s ++ str_esc r
unfolding str_esc
str_esc-append s r = simp (replace_by-append)

str_esc-digits : (ds : Bytes) → All (λ c. is_digit c ≡ true) ds → str_esc ds ≡ ds
unfolding str_esc replace_by
str_esc-digits [] h = refl
str_esc-digits (d ∷ ds) h =
    let amp : (d == b'&') ≡ false = ground (arith, h.0) in
    let lt : (d == b'<') ≡ false = ground (arith, h.0) in
    let gt : (d == b'>') ≡ false = ground (arith, h.0) in
    rw (amp, lt, gt) (ap (λ t. d ∷ t) (str_esc-digits ds h.1))

str_esc-forged :
    (ds s : Bytes) → All (λ c. is_digit c ≡ true) ds → str_esc (forged ds s) ≡ forged ds (str_esc s)
str_esc-forged ds s h =
    let marks : str_esc (codes "{{{href=") ≡ codes "{{{href=" = unfold str_esc replace_by in refl in
    let close : str_esc (codes "}}}") ≡ codes "}}}" = unfold str_esc replace_by in refl in
    str_esc-append (codes "{{{href=") (ds ++ (codes "}}}" ++ s))
    ∙ rw (
      marks,
      str_esc-append ds (codes "}}}" ++ s),
      str_esc-digits ds h,
      str_esc-append (codes "}}}") s,
      close,
    )

Lacks-digits : (ds : Bytes) → All (λ c. is_digit c ≡ true) ds → Lacks b':' ds
Lacks-digits ds h = All-imp (λ c. is_digit c ≡ true) (λ c. c ≢ b':') (λ c k. ground arith) ds h

-- Every text without a colon that holds "{{{href=", some digits and "}}}" makes msg_esc, and so the page
-- that shows it, end with an index out of range: there is no link of that number.
pub msg_esc-forged :
    (x : Bytes) (d : ℕ) (ds y : Bytes)
    → Lacks b':' x
    → All (λ c. is_digit c ≡ true) (d ∷ ds)
    → Lacks b':' y
    → msg_esc (x ++ (codes "{{{href=" ++ ((d ∷ ds) ++ (codes "}}}" ++ y)))) ≡ err index_out_of_range
msg_esc-forged x d ds y hx h hy =
    let tail : Lacks b':' ((d ∷ ds) ++ (codes "}}}" ++ y)) =
      All-append (λ c. c ≢ b':') (d ∷ ds) (codes "}}}" ++ y) (Lacks-digits (d ∷ ds) h)
        (All-append (λ c. c ≢ b':') (codes "}}}") y (omega arith) hy) in
    let colon : Lacks b':' (x ++ forged (d ∷ ds) y) =
      All-append (λ c. c ≢ b':') x (forged (d ∷ ds) y) hx
        (All-append (λ c. c ≢ b':') (codes "{{{href=") ((d ∷ ds) ++ (codes "}}}" ++ y))
          (omega arith) tail) in
    msg_esc-Lacks _ colon
    ∙ ap (put_links [] 0) (
        str_esc-append x (forged (d ∷ ds) y)
        ∙ ap (λ t. str_esc x ++ t) (str_esc-forged (d ∷ ds) y h))
    ∙ put_links-forged (str_esc x) d ds (str_esc y) h
