-- ===== src/Node/Pager.antt =====
-- ii-node/web.go: makePager, which turns a page number into an offset and a row of page links.
use ii_go.Base.{
  ltb, leb, ◌==◌, if◌then◌else◌, ℤ, pos, negsuc, is_neg, abs, residue, of_residue, wrapped, ℕ, zero,
  suc, ◌+◌, ◌-◌, ◌*◌, ◌/◌, ◌%◌, ◌^◌, ◌≤◌, ◌<◌, ◌≡◌, Bool, true, false, ◌&&◌, ◌||◌, List, [], ◌∷◌,
  ◌++◌, arith,
}

abbrev pub page_size : ℕ
page_size = 50

abbrev pub pager_range : ℕ
pager_range = 10

-- ctx.Pages, ctx.Page, ctx.Pager and the offset that is returned.
pub record Pages : Type 0 where
  pub pages : ℕ
  pub page : ℤ
  pub pager : List ℕ
  pub start : ℕ

unfoldable pub page_count : ℕ → ℕ
page_count count = if count % page_size == 0 then count / page_size else count / page_size + 1

-- The first page for 0, and a page from the end for a negative number: `pages + page + 1`.
unfoldable pub real_page : ℤ → ℕ → ℤ
real_page (pos zero) pages = pos 1
real_page (pos (suc n)) pages = pos (suc n)
real_page (negsuc n) pages = if leb n pages then pos (pages - n) else negsuc (n - pages - 1)

-- `(page - 1) * PAGE_SIZE`, an int, which wraps around.
unfoldable pub page_offset : ℤ → ℤ
page_offset (pos zero) = negsuc (page_size - 1)
page_offset (pos (suc n)) = wrapped (pos (n * page_size))
page_offset (negsuc n) = wrapped (negsuc ((n + 2) * page_size - 1))

-- math.Abs(float64(i-page)) <= PAGER_RANGE
unfoldable pub near : ℕ → ℤ → Bool
near i (pos page) = leb i (page + pager_range) && leb page (i + pager_range)
near i (negsuc n) = leb (i + n + 1) pager_range

abbrev pub last_is_gap : List ℕ → Bool
last_is_gap [] = false
last_is_gap (x ∷ []) = x == 0
last_is_gap (x ∷ y ∷ l) = last_is_gap (y ∷ l)

-- The loop over the pages from `i` on, of which `left` are left; 0 stands for a gap.
unfoldable pub links : ℕ → ℕ → ℤ → ℕ → List ℕ → List ℕ
links zero i page pages pager = pager
links (suc left) i page pages pager =
    let shown = links left (suc i) page pages (pager ++ i ∷ []) in
    let gap = links left (suc i) page pages (pager ++ 0 ∷ []) in
    let skip = links left (suc i) page pages pager in
    if i == 1 || near i page || i == pages then shown else if last_is_gap pager then skip else gap

-- makePager, on a context whose Pager is empty
unfoldable pub make_pager : ℕ → ℤ → Pages
make_pager count page =
    let pages = page_count count in
    let asked = real_page page pages in
    let offset = page_offset asked in
    let p = if is_neg offset then pos 1 else asked in
    let row = links pages 1 p pages [] in
    record {
      pages = pages;
      page = p;
      pager = if ltb 1 pages then row else [];
      start = if is_neg offset then 0 else abs offset;
    }

page_count-bound : (count : ℕ) → 0 < count → (page_count count - 1) * page_size < count
unfolding page_count
page_count-bound count h = ground arith

page_count-pos : (count : ℕ) → 0 < count → 0 < page_count count
unfolding page_count
page_count-pos count h = ground arith

page_start : (count p : ℕ) → 0 < count → p ≤ page_count count → (p - 1) * page_size < count
page_start count p h k = omega (arith, page_count-bound count h)

wrapped-pos : (n : ℕ) → n < 2 ^ 63 → wrapped (pos n) ≡ pos n
unfolding wrapped of_residue residue
wrapped-pos n h =
    let small : n % 2 ^ 64 ≡ n = omega arith in
    let fits : ltb n (2 ^ 63) ≡ true = ground arith in rw (small, fits)

-- A page number of no more than the number of pages, also one from the end, gives an offset at which a
-- message stands, if there is any and their number is an int.
start-make_pager :
    (count : ℕ) (page : ℤ)
    → 0 < count
    → count < 2 ^ 63
    → abs page ≤ page_count count
    → (make_pager count page).start < count
unfolding make_pager real_page page_offset
start-make_pager count (pos zero) h w k =
    let e : wrapped (pos (0 * page_size)) ≡ pos 0 = wrapped-pos 0 (omega arith) in rw e h
start-make_pager count (pos (suc n)) h w k =
    let b = page_start count (suc n) h k in
    let e = wrapped-pos (n * page_size) (omega (arith, b)) in rw e (omega (arith, b))
start-make_pager count (negsuc n) h w k =
    let m = page_count count - n - 1 in
    let early : leb n (page_count count) ≡ true = ground arith in
    let one_up : page_count count - n ≡ suc m = omega arith in
    let b = page_start count (suc m) h (omega arith) in
    let e = wrapped-pos (m * page_size) (omega (arith, b)) in
    rw (early, one_up, e) (omega (arith, b))
