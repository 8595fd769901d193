-- ===== src/Node/Web.antt =====
-- ii-node/web.go: the handlers that change the database of messages (www_new, www_edit and
-- www_blacklist) on the values of a form that was parsed, and msg_access. What is shown of a message is a
-- value of Page in place of the rendered template.
pub mod Shown
pub mod Laws
mod Tests
use ii_go.Base.{
  if◌then◌else◌, Bytes, codes, str_eq, ℤ, pos, same_int, Result, ok, err, Bool, true, false, ◌&&◌,
  ◌||◌, not, Option, none, some, [], ◌∷◌, ◌++◌,
}
use ii_go.Decimal.{print_int}
use ii_go.Msg.Tags.{add_or_keep}
use ii_go.Msg.Encode.{Msg}
use ii_go.Msg.Decode.{MsgError}
use ii_go.Msg.Line.{decode_msgline}
use ii_go.Msg.Line.Sound.{post_text}
use ii_go.Db.State.{nil_pointer, Exec, ◌>>=◌, ◌>>◌, pure, fault, gets}
use ii_go.Db.Access.{StoreError, get_msg, store_with, blacklist}
use ii_go.Users.{User}
use ii_go.Echoes.{Edb, edb_access}
use ii_go.Node.Points.{point_policy}

-- r.FormValue of the fields, and whether the action is "Submit".
pub record Form : Type 0 where
  pub subj : Bytes
  pub to : Bytes
  pub msg : Bytes
  pub repto : Bytes
  pub id : Bytes
  pub echo : Bytes
  pub submit : Bool

pub data Page : Type 0 where
  denied no_such_msg unverified done : Page
  bad_form : MsgError → Page
  failed : StoreError → Page
  preview : Msg → Page

abbrev pub is_root : User → Bool
is_root u = same_int u.id (pos 1)

abbrev pub address : Bytes → User → Bytes
address name u = name ++ b',' ∷ print_int u.id

-- msg_access
unfoldable pub msg_access : Bytes → Msg → User → Bool
msg_access name m u = str_eq (address name u) m.addr || is_root u

unfoldable pub page_of : Option StoreError → Page
page_of none = done
page_of (some e) = failed e

-- The message of a form, signed and with its parent.
unfoldable pub authored : Bytes → User → Form → Msg → Msg
authored name u form m =
    let repto = if str_eq form.repto form.id then [] else form.repto in
    let s = record m { from = u.name; addr = address name u } in
    if str_eq repto []
    then s
    else record s { tags = add_or_keep s.tags (codes "repto" ++ b'/' ∷ repto) }

-- The message takes the place of another one.
unfoldable pub in_place : Bytes → Msg → Msg → Msg
in_place id m o = record m { date = o.date; msg_id = id; from = o.from; addr = o.addr }

unfoldable pub form_line : Bytes → Form → Bytes
form_line path form =
    post_text (if str_eq form.echo [] then path else form.echo) form.to form.subj form.msg

module _ {Regex : Type 0} (sha256 : Bytes → Bytes) (now : ℤ) (matches : Regex → Bytes → Bool)
    (edb : Edb Regex) (u : User) where
  unfoldable pub blacklist_found : Option Msg → Bytes → Exec Page
  blacklist_found none name = pure no_such_msg
  blacklist_found (some m) name =
      if not (msg_access name m u)
      then pure denied
      else do r ← blacklist sha256 now m; pure (page_of r)

  -- www_blacklist
  unfoldable pub www_blacklist : Bytes → Exec Page
  www_blacklist id = do o ← get_msg sha256 id; name ← gets (λ db. db.name); blacklist_found o name

  unfoldable pub save : Bool → Msg → Exec Page
  save edit_it m = do r ← store_with sha256 now m edit_it; pure (page_of r)

  -- What follows PointPolicy.
  unfoldable pub verified : Bool → Bool → Msg → Bool → Exec Page
  verified edit_it submit m false = pure unverified
  verified edit_it submit m true =
      if not (edb_access matches edb m) && not (is_root u)
      then pure denied
      else if submit
      then save edit_it m
      else pure (preview (if edit_it then m else record m { msg_id = [] }))

  unfoldable pub checked : Bool → Bool → Msg → Exec Page
  checked edit_it submit m = do good ← point_policy sha256 u m; verified edit_it submit m good

  -- The original of an edited message: the superuser's edit of one that is not shown reads a nil pointer.
  unfoldable pub with_original : Bool → Form → Msg → Option Msg → Exec Page
  with_original edit_it form m none = if is_root u then fault nil_pointer else pure denied
  with_original edit_it form m (some o) =
      if not (str_eq m.addr o.addr) && not (is_root u)
      then pure denied
      else checked edit_it form.submit (in_place form.id m o)

  unfoldable pub original : Bool → Form → Msg → Exec Page
  original edit_it form m =
      if str_eq form.id []
      then checked edit_it form.submit m
      else do o ← get_msg sha256 form.id; with_original edit_it form m o

  unfoldable pub decoded_form : Bytes → Form → Result MsgError Msg → Exec Page
  decoded_form path form (err e) = pure (bad_form e)
  decoded_form path form (ok m) = do
    name ← gets (λ db. db.name)
    original (str_eq path []) form (authored name u form m)

  -- www_new on POST; www_edit calls it with the empty path.
  unfoldable pub www_new : Bytes → Form → Exec Page
  www_new path form =
      if str_eq u.name []
      then pure denied
      else decoded_form path form (decode_msgline now (form_line path form) false)

  unfoldable pub www_edit : Form → Exec Page
  www_edit form = www_new [] form
