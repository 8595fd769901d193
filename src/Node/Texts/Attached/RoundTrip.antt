-- ===== src/Node/Texts/Attached/RoundTrip.antt =====
-- ii-node/web.go: a file that was put into a message comes out of www_base64 as it was.
use ii_go.Base.{
  if◌then◌else◌, All, All-imp, Bytes, codes, str_eq, IsByte, ℕ, ◌+◌, ◌*◌, ◌/◌, ◌%◌, ◌<◌, ◌≡◌, refl,
  ap, ◌∙◌, ◌≢◌, true, false, some, [], ◌∷◌, ◌++◌, arith,
}
use ii_go.Strings.{split, has_prefix, trim_left, trim_right, trim, remove_all}
use ii_go.Strings.Replace.{remove_all-Lacks}
use ii_go.Base64
use ii_go.Base64.RoundTrip.{IsText, encode-IsText, decode-encode}
use ii_go.Msg.Encode.{Msg}
use ii_go.Node.Html.{msg_clean}
use ii_go.Node.Texts.{file_name}
use ii_go.Node.Texts.Attached.{
  is_base64_char, is_base64, FileReader, read_file_line, read_file, no_file, decode_file, is_image,
  inline, attachment, file_page, file_of,
}

digit-is_base64_char : (n : ℕ) → n < 64 → is_base64_char (Base64.digit Base64.std n) ≡ true
unfolding is_base64_char Base64.digit
digit-is_base64_char n h = ground arith

is_base64-encode : (s : Bytes) → All IsByte s → is_base64 (Base64.encode Base64.std s) ≡ true
unfolding is_base64 Base64.encode str_eq
is_base64-encode [] h = refl
is_base64-encode (a ∷ []) h =
    rw (digit-is_base64_char (a / 4) (omega arith), digit-is_base64_char (a % 4 * 16) (omega arith))
      (ground arith)
is_base64-encode (a ∷ b ∷ []) (ha, (hb, h)) =
    rw
      (
        digit-is_base64_char (a / 4) (omega arith),
        digit-is_base64_char (a % 4 * 16 + b / 16) (omega arith),
        digit-is_base64_char (b % 16 * 4) (omega arith),
      )
      (ground arith)
is_base64-encode (a ∷ b ∷ c ∷ s) (ha, (hb, (hc, h))) = rw (
  digit-is_base64_char (a / 4) (omega arith),
  digit-is_base64_char (a % 4 * 16 + b / 16) (omega arith),
  digit-is_base64_char (b % 16 * 4 + c / 64) (omega arith),
  digit-is_base64_char (c % 64) (omega arith),
  is_base64-encode s h,
)

-- A line that begins with "@" is no mark of a pre block.
front :
    (t : Bytes) → str_eq (elim t [ [] ↦ b'@' ∷ [] | e ∷ s ↦ b'@' ∷ e ∷ s ]) (codes "====") ≡ false
unfolding str_eq
front [] = refl
front (e ∷ s) = refl

at_mark : (t : Bytes) → str_eq (trim (b'@' ∷ t) b' ') (codes "====") ≡ false
unfolding trim trim_left trim_right
at_mark t = front (trim_right t b' ')

at_line : (l : Bytes) → has_prefix l (codes "@base64:") ≡ true → (t : Bytes) × (l ≡ b'@' ∷ t)
unfolding has_prefix
at_line [] h = cc
at_line (c ∷ t) h = (t, ground arith)

first_line :
    (l : Bytes)
    → has_prefix l (codes "@base64:") ≡ true
    → read_file_line no_file l ≡ some (record no_file { fname = file_name l; start = true })
unfolding read_file_line
first_line l h =
    let (t, e) = at_line l h in
    let unmarked : str_eq (trim l b' ') (codes "====") ≡ false = rw e (at_mark t) in
    rw (unmarked, h)

unspaced :
    (s : Bytes)
    → All IsByte s
    → remove_all (Base64.encode Base64.std s) b' ' ≡ Base64.encode Base64.std s
unspaced s h =
    remove_all-Lacks (Base64.encode Base64.std s) b' '
      (All-imp IsText (λ c. c ≢ b' ') (λ c p. omega arith) _ (encode-IsText s h))

second_line :
    (r : FileReader) (s : Bytes)
    → r.start ≡ true
    → r.pre ≡ false
    → All IsByte s
    → read_file_line r (Base64.encode Base64.std s)
      ≡ some (record r { b64 = r.b64 ++ Base64.encode Base64.std s })
unfolding read_file_line
second_line r s e f h = rw (read_file_line, e, f, unspaced s h, is_base64-encode s h)

encode-ne-nil : (s : Bytes) → s ≢ [] → str_eq (Base64.encode Base64.std s) [] ≡ false
unfolding str_eq Base64.encode
encode-ne-nil [] h = absurd (h refl)
encode-ne-nil (a ∷ []) h = refl
encode-ne-nil (a ∷ b ∷ []) h = refl
encode-ne-nil (a ∷ b ∷ c ∷ s) h = refl

decode_file-encode : (s : Bytes) → All IsByte s → decode_file (Base64.encode Base64.std s) ≡ some s
unfolding decode_file
decode_file-encode s h = rw (decode_file, decode-encode s h)

abbrev full : Bytes → Bytes → FileReader
full l s = record {
  start = true;
  pre = false;
  b64 = Base64.encode Base64.std s;
  fname = file_name l;
}

read_file-encode :
    (l s : Bytes)
    → has_prefix l (codes "@base64:") ≡ true
    → All IsByte s
    → read_file (l ∷ Base64.encode Base64.std s ∷ []) no_file ≡ full l s
unfolding read_file
read_file-encode l s h bytes =
    rw (read_file, first_line l h)
      (rw (
        read_file,
        second_line (record no_file { fname = file_name l; start = true }) s refl refl bytes,
      ))

file_page-full :
    (l s : Bytes)
    → s ≢ []
    → All IsByte s
    → file_page (full l s) ≡ (if is_image s then inline s else attachment (file_name l) s)
unfolding file_page
file_page-full l s some_bytes bytes =
    rw (file_page, encode-ne-nil s some_bytes, decode_file-encode s bytes)

-- A message of two lines, of "@base64:" with a name and of the encoded bytes of a file, none of them missing,
-- gives back these bytes, and the name unless they are shown as an image.
pub file_of-encode :
    (m : Msg) (l s : Bytes)
    → split (msg_clean m.text) b'\n' ≡ l ∷ Base64.encode Base64.std s ∷ []
    → has_prefix l (codes "@base64:") ≡ true
    → s ≢ []
    → All IsByte s
    → file_of (some m) ≡ (if is_image s then inline s else attachment (file_name l) s)
unfolding file_of
file_of-encode m l s lines h some_bytes bytes =
    ap (λ t. file_page (read_file t no_file)) lines
    ∙ ap file_page (read_file-encode l s h bytes)
    ∙ file_page-full l s some_bytes bytes
