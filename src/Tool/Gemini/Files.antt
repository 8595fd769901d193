-- ===== src/Tool/Gemini/Files.antt =====
-- ii-tool/main.go: the file that gemini makes.
use ii_go.Base.{
  if◌then◌else◌, Bytes, codes, str_eq, Lacks, ℤ, ℕ, ◌≡◌, refl, sym, ap, ◌∙◌, ◌≢◌, Bool, true, false,
  Option, none, some, List, [], ◌∷◌, ◌++◌, append_assoc, arith,
}
use ii_go.Strings.{split, has_prefix, has_suffix, trim_prefix, trim, replace, remove_all}
use ii_go.Base64
use ii_go.Tool.Gemini.{
  Gem, fence, writes, gem_name, with_links, plain_end, open_line, gem_line, gem_lines, lines_of,
  begun, with_file, gem_end, gemini,
}
use ii_go.Msg.Encode.{Msg}
use ii_go.Tool.Commands.{line_of}

Lacks-replace : (s : Bytes) (a b : ℕ) → a ≢ b → Lacks a (replace s a b)
unfolding replace
Lacks-replace [] a b h = tt
Lacks-replace (c ∷ s) a b h = ground (arith, Lacks-replace s a b h)

Lacks-replace_other : (s : Bytes) (e a b : ℕ) → e ≢ b → Lacks e s → Lacks e (replace s a b)
unfolding replace
Lacks-replace_other [] e a b h k = tt
Lacks-replace_other (c ∷ s) e a b h k = ground (arith, Lacks-replace_other s e a b h k.1)

-- A name of one component: it leads into no other directory.
abbrev pub IsPlain : Bytes → Type 0
IsPlain name = Lacks b'/' name × Lacks b'\\' name

gem_name-IsPlain : (l : Bytes) → IsPlain (gem_name l)
unfolding gem_name
gem_name-IsPlain l =
    let s = trim (trim_prefix l (codes "@base64:")) b' ' in
    (
      Lacks-replace_other (replace s b'/' b'_') b'/' b'\\' b'_' (omega arith)
          (Lacks-replace s b'/' b'_' (omega arith)),
      Lacks-replace (replace s b'/' b'_') b'\\' b'_' (omega arith),
    )

plain_end-b64fname : (l : Bytes) (g : Gem) → (plain_end l g).b64fname ≡ g.b64fname
unfolding plain_end with_links writes
plain_end-b64fname l g = ground arith

-- An if of two good states is good.
either_IsPlain :
    (b : Bool) (g h : Gem)
    → IsPlain g.b64fname
    → IsPlain h.b64fname
    → IsPlain (if b then g else h).b64fname
either_IsPlain true g h k l = k
either_IsPlain false g h k l = l

plain_end-IsPlain : (l : Bytes) (g : Gem) → IsPlain g.b64fname → IsPlain (plain_end l g).b64fname
plain_end-IsPlain l g h = rw (plain_end-b64fname l g) h

open_line-IsPlain : (l : Bytes) (g : Gem) → IsPlain g.b64fname → IsPlain (open_line l g).b64fname
unfolding open_line writes
open_line-IsPlain l g h =
    either_IsPlain (str_eq l (codes "====")) _ _ (plain_end-IsPlain fence _ h) (
      either_IsPlain (has_prefix l (codes "/* XPM */")) _ _ (plain_end-IsPlain l _ h) (
        either_IsPlain (has_prefix l (codes "@base64:")) _ _
          (plain_end-IsPlain l _ (gem_name-IsPlain l)) (plain_end-IsPlain l _ h)))

gem_line-IsPlain : (v : Bytes) (g : Gem) → IsPlain g.b64fname → IsPlain (gem_line v g).b64fname
unfolding gem_line writes
gem_line-IsPlain v g h =
    let l = remove_all v b'\r' in
    either_IsPlain g.pre _ _
      (either_IsPlain (str_eq l (codes "====")) _ _ (plain_end-IsPlain fence _ h)
        (plain_end-IsPlain l _ h))
      (either_IsPlain g.xpm _ _
        (either_IsPlain (has_suffix l (codes "};")) _ _ h (plain_end-IsPlain l _ h))
        (either_IsPlain g.b64 _ _ (plain_end-IsPlain l _ h) (open_line-IsPlain l g h)))

gem_lines-IsPlain :
    (lines : List Bytes) (g : Gem) → IsPlain g.b64fname → IsPlain (gem_lines lines g).b64fname
unfolding gem_lines
gem_lines-IsPlain [] g h = h
gem_lines-IsPlain (v ∷ lines) g h = gem_lines-IsPlain lines (gem_line v g) (gem_line-IsPlain v g h)

module _ (date_text : ℤ → Bytes) (create : Bytes → Bool) (dir : Bytes) where
  abbrev pub IsLinked : Bytes → Bytes → Type 0
  IsLinked page path =
      (name rest : Bytes) × IsPlain name
      × (path ≡ dir ++ b'/' ∷ name)
      × (create path ≡ true)
      × (page ≡ rest ++ line_of (codes "=> " ++ name ++ codes " " ++ name))

  -- What with_file gives for a file that decodes.
  abbrev made_page : Gem → Bytes → Bool → Bytes × Option (Bytes × Bytes)
  made_page g b made =
      if made
      then (
        g.out ++ lines_of g.links ++ line_of (codes "=> " ++ g.b64fname ++ codes " " ++ g.b64fname),
        some (dir ++ b'/' ∷ g.b64fname, b),
      )
      else (g.out ++ lines_of g.links, none)

  made_page-IsLinked :
      (g : Gem) (b page path d : Bytes) (made : Bool)
      → IsPlain g.b64fname
      → create (dir ++ b'/' ∷ g.b64fname) ≡ made
      → made_page g b made ≡ (page, some (path, d))
      → IsLinked page path
  made_page-IsLinked g b page path d true h c e =
      let same : dir ++ b'/' ∷ g.b64fname ≡ path = cc in
      (
        g.b64fname,
        g.out ++ lines_of g.links,
        h,
        sym same,
        sym (ap create same) ∙ c,
        sym (ap (λ x. x.0) e) ∙ simp append_assoc,
      )
  made_page-IsLinked g b page path d false h c e = cc

  with_file-IsLinked :
      (g : Gem) (o : Option Bytes) (page path d : Bytes)
      → IsPlain g.b64fname
      → with_file date_text create dir g o ≡ (page, some (path, d))
      → IsLinked page path
  unfolding with_file
  with_file-IsLinked g none page path d h e = cc
  with_file-IsLinked g (some b) page path d h e =
      made_page-IsLinked g b page path d (create (dir ++ b'/' ∷ g.b64fname)) h refl e

  -- The file of a page is made in the directory, by a path that can be created and ends in a name without
  -- slashes, and the page ends with the link of that name.
  pub gemini-IsLinked :
      (m : Msg) (page path d : Bytes)
      → gemini date_text create m dir ≡ (page, some (path, d))
      → IsLinked page path
  unfolding gemini gem_end begun
  gemini-IsLinked m page path d e =
      let g = gem_lines (split m.text b'\n') (begun date_text create m) in
      with_file-IsLinked g (if g.b64 then Base64.decode Base64.std g.b64str else none) page path d
        (gem_lines-IsPlain (split m.text b'\n') (begun date_text create m) (tt, tt)) e
