-- ===== src/Net/Batches.antt =====
-- ii/net.go: the requests of Node.Store, as batches of ids.
use ii_go.Base.{
  ltb, if◌then◌else◌, Bool-cases, length, length-append, Bytes, codes, ℤ, ℕ, ◌+◌, ◌≤◌, ◌<◌, ◌≡◌,
  refl, sym, ap, ◌∙◌, ◌⊎◌, inl, inr, Bool, true, false, ◌&&◌, not, List, [], ◌∷◌, ◌++◌,
  append_assoc, append-nil, arith,
}
use ii_go.Net.{Response, http_req_lines, Node, is_nil, store_lines, store_ids}
use ii_go.Db.State.{Exec, ◌>>=◌, pure}

abbrev pub path_of : List Bytes → Bytes
path_of [] = []
path_of (id ∷ ids) = b'/' ∷ id ++ path_of ids

abbrev pub concat : List (List Bytes) → List Bytes
concat [] = []
concat (b ∷ bs) = b ++ concat bs

-- Every batch but the last one is full, and none is empty.
abbrev pub IsBatched : List (List Bytes) → Type 0
IsBatched [] = Unit
IsBatched (b ∷ []) = (1 ≤ length b) × (length b ≤ 8)
IsBatched (b ∷ c ∷ bs) = (length b ≡ 8) × IsBatched (c ∷ bs)

-- The batches of ids, the first of which begins with those of another list.
unfoldable pub batches : List Bytes → List Bytes → List (List Bytes)
batches pre [] = []
batches pre (id ∷ ids) =
    let b = pre ++ id ∷ [] in
    let more = batches b ids in
    let next = b ∷ batches [] ids in
    if ltb (length pre + 1) 8 && not (is_nil ids) then more else next

path_of-snoc : (pre : List Bytes) (id : Bytes) → path_of (pre ++ id ∷ []) ≡ path_of pre ++ b'/' ∷ id
path_of-snoc [] id = ap (λ r. b'/' ∷ r) (append-nil id)
path_of-snoc (p ∷ pre) id = simp (path_of-snoc pre id, append_assoc)

concat-batches :
    (pre ids : List Bytes)
    → (pre ≡ []) ⊎ (is_nil ids ≡ false)
    → concat (batches pre ids) ≡ pre ++ ids
unfolding batches
concat-batches pre [] (inl e) = rw e refl
concat-batches pre [] (inr e) = cc
concat-batches pre (id ∷ ids) h = elim (Bool-cases (ltb (length pre + 1) 8 && not (is_nil ids))) [
  | inl e ↦
      rw e
        (concat-batches (pre ++ id ∷ []) ids (inr (ground arith)) ∙ append_assoc pre (id ∷ []) ids)
  | inr e ↦ rw e (
      ap (λ l. (pre ++ id ∷ []) ++ l) (concat-batches [] ids (inl refl))
      ∙ append_assoc pre (id ∷ []) ids)
]

IsBatched-cons :
    (b : List Bytes) (bs : List (List Bytes))
    → (1 ≤ length b) × (length b ≤ 8)
    → (bs ≡ []) ⊎ (length b ≡ 8)
    → IsBatched bs
    → IsBatched (b ∷ bs)
IsBatched-cons b [] h k v = h
IsBatched-cons b (c ∷ bs) h (inl e) v = cc
IsBatched-cons b (c ∷ bs) h (inr e) v = (e, v)

batches-nil : (ids : List Bytes) → is_nil ids ≡ true → batches [] ids ≡ []
unfolding batches
batches-nil [] h = refl
batches-nil (id ∷ ids) h = cc

batches-IsBatched : (pre ids : List Bytes) → length pre < 8 → IsBatched (batches pre ids)
unfolding batches
batches-IsBatched pre [] h = tt
batches-IsBatched pre (id ∷ ids) h =
    elim (Bool-cases (ltb (length pre + 1) 8 && not (is_nil ids))) [
      | inl e ↦
          rw e
            (batches-IsBatched (pre ++ id ∷ []) ids (ground (arith, length-append pre (id ∷ []))))
      | inr e ↦ rw e (
          IsBatched-cons (pre ++ id ∷ []) (batches [] ids)
            (omega (arith, length-append pre (id ∷ [])))
            (elim (Bool-cases (is_nil ids)) [
              | inl n ↦ inl (batches-nil ids n)
              | inr n ↦ inr (ground (arith, length-append pre (id ∷ [])))
            ])
            (batches-IsBatched [] ids (omega arith)))
    ]

module _ (http_get : Bytes → Response) (sha256 : Bytes → Bytes) (now : ℤ) (n : Node) where
  -- The answer to the request of a batch.
  abbrev pub batch_lines : List Bytes → List Bytes × Bool
  batch_lines b = http_req_lines (http_get (n.host ++ codes "/u/m" ++ path_of b))

  -- One request for each batch, up to one that fails.
  unfoldable pub ask_batches : List (List Bytes) → Exec Bool
  ask_batches [] = pure false
  ask_batches (b ∷ bs) =
      let rest = ask_batches bs in
      do
        t ← store_lines http_get sha256 now (batch_lines b).0
        if (batch_lines b).1 then pure true else rest

  store_ids-more :
      (ids : List Bytes) (id req : Bytes) (nreq : ℕ)
      → (ltb (nreq + 1) 8 && not (is_nil ids)) ≡ true
      → store_ids http_get sha256 now n (id ∷ ids) req nreq
        ≡ store_ids http_get sha256 now n ids (req ++ b'/' ∷ id) (nreq + 1)
  unfolding store_ids
  store_ids-more ids id req nreq e = rw (store_ids, e) refl

  batches-more :
      (ids pre : List Bytes) (id : Bytes)
      → (ltb (length pre + 1) 8 && not (is_nil ids)) ≡ true
      → batches pre (id ∷ ids) ≡ batches (pre ++ id ∷ []) ids
  unfolding batches
  batches-more ids pre id e = rw (batches, e) refl

  -- A request, and what follows it.
  abbrev ask : Bytes → Exec Bool → Exec Bool
  ask path rest = do
    t ←
        store_lines http_get sha256 now
          (http_req_lines (http_get (n.host ++ codes "/u/m" ++ path))).0
    if (http_req_lines (http_get (n.host ++ codes "/u/m" ++ path))).1 then pure true else rest

  store_ids-last :
      (ids : List Bytes) (id req : Bytes) (nreq : ℕ)
      → (ltb (nreq + 1) 8 && not (is_nil ids)) ≡ false
      → store_ids http_get sha256 now n (id ∷ ids) req nreq
        ≡ ask (req ++ b'/' ∷ id) (store_ids http_get sha256 now n ids [] 0)
  unfolding store_ids
  store_ids-last ids id req nreq e = rw (store_ids, e) refl

  batches-last :
      (ids pre : List Bytes) (id : Bytes)
      → (ltb (length pre + 1) 8 && not (is_nil ids)) ≡ false
      → batches pre (id ∷ ids) ≡ (pre ++ id ∷ []) ∷ batches [] ids
  unfolding batches
  batches-last ids pre id e = rw (batches, e) refl

  pub store_ids-from :
      (pre ids : List Bytes)
      → store_ids http_get sha256 now n ids (path_of pre) (length pre)
        ≡ ask_batches (batches pre ids)
  unfolding store_ids batches ask_batches
  store_ids-from pre [] = refl
  store_ids-from pre (id ∷ ids) = elim (Bool-cases (ltb (length pre + 1) 8 && not (is_nil ids))) [
    | inl e ↦
        store_ids-more ids id (path_of pre) (length pre) e
        ∙ (ap (λ req. store_ids http_get sha256 now n ids req (length pre + 1))
              (sym (path_of-snoc pre id))
            ∙ (ap (λ k. store_ids http_get sha256 now n ids (path_of (pre ++ id ∷ [])) k)
                  (sym (length-append pre (id ∷ [])))
                ∙ (store_ids-from (pre ++ id ∷ []) ids
                    ∙ ap ask_batches (sym (batches-more ids pre id e)))))
    | inr e ↦
        store_ids-last ids id (path_of pre) (length pre) e
        ∙ (ap (λ req. ask req (store_ids http_get sha256 now n ids [] 0))
              (sym (path_of-snoc pre id))
            ∙ (ap (ask (path_of (pre ++ id ∷ []))) (store_ids-from [] ids)
                ∙ ap ask_batches (sym (batches-last ids pre id e))))
  ]

  -- Node.Store asks for the ids in their order, in batches of eight, the last one with the rest of them,
  -- one request for each batch, and stops at the first request that fails.
  pub store_ids-batches :
      (ids : List Bytes)
      → (bs : List (List Bytes)) × (concat bs ≡ ids)
        × IsBatched bs
        × (store_ids http_get sha256 now n ids [] 0 ≡ ask_batches bs)
  store_ids-batches ids = (
    batches [] ids,
    concat-batches [] ids (inl refl),
    batches-IsBatched [] ids (omega arith),
    store_ids-from [] ids,
  )
