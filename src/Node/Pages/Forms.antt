-- ===== src/Node/Pages/Forms.antt =====
-- ii-node/web.go: the forms of a reply and of an edit (www_reply, and www_edit on GET).
use ii_go.Base.{if◌then◌else◌, Bytes, codes, ok, err, Bool, Option, none, some, List, [], ◌∷◌, ◌++◌}
use ii_go.Strings.{split, join, has_prefix, trim_prefix}
use ii_go.Msg.Tags.{add_or_keep}
use ii_go.Msg.Encode.{Msg}
use ii_go.Db.State.{Exec, ◌>>=◌, pure, fault}
use ii_go.Db.Access.{get_msg}
use ii_go.Node.Html.{msg_clean}
use ii_go.Node.Texts.{msg_quote}

unfoldable pub reply_to : Bytes → Msg → Bytes → Msg
reply_to id m text = record m {
  to = m.from;
  subj = codes "Re: " ++ trim_prefix m.subj (codes "Re: ");
  tags = add_or_keep m.tags (codes "repto/" ++ id);
  text = text;
}

unfoldable pub reply_form : Bytes → Bool → Option Msg → Exec (Option Msg)
reply_form id quote none = pure none
reply_form id quote (some m) =
    if quote
    then elim (msg_quote m.text m.from) [ err p ↦ fault p | ok t ↦ pure (some (reply_to id m t)) ]
    else pure (some (reply_to id m []))

-- www_reply: the message of the form, `none` for the answer that there is no such message.
unfoldable pub www_reply : (Bytes → Bytes) → Bytes → Bool → Exec (Option Msg)
www_reply sha256 id quote = do m ← get_msg sha256 id; reply_form id quote m

unfoldable pub last_line : List Bytes → Bytes
last_line [] = []
last_line (l ∷ []) = l
last_line (l ∷ k ∷ ls) = last_line (k ∷ ls)

unfoldable pub without_last : List Bytes → List Bytes
without_last [] = []
without_last (l ∷ []) = []
without_last (l ∷ k ∷ ls) = l ∷ without_last (k ∷ ls)

-- The text of an edited message; `now` is the time as it is printed.
unfoldable pub edited_text : Bytes → Bytes → Bytes
edited_text now text =
    let ln = split (msg_clean text) b'\n' in
    (if has_prefix (last_line ln) (codes "P.S. Edited: ")
      then join (without_last ln) b'\n'
      else text)
    ++ codes "\nP.S. Edited: "
    ++ now

-- www_edit on GET: the message of the form.
unfoldable pub www_edit_form : (Bytes → Bytes) → Bytes → Bytes → Exec (Option Msg)
www_edit_form sha256 now id = do
  m ← get_msg sha256 id
  pure (elim m [ none ↦ none | some o ↦ some (record o { text = edited_text now o.text }) ])
