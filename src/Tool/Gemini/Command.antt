-- ===== src/Tool/Gemini/Command.antt =====
-- ii-tool/main.go: the command gemini. What is given is the files that it makes, with the bytes that
-- are written to them, in order.
use ii_go.Base.{
  if◌then◌else◌, Bytes, codes, ℤ, Bool, false, Option, none, some, List, [], ◌∷◌, ◌++◌,
}
use ii_go.Strings.{trim_suffix}
use ii_go.Msg.Encode.{Msg}
use ii_go.Db.State.{nil_pointer, Exec, ◌>>=◌, pure, fault}
use ii_go.Db.Load.{load_index}
use ii_go.Db.Access.{lookup_fast, get_msg}
use ii_go.Tool.Commands.{all_read}
use ii_go.Tool.Gemini.{gemini}

module _ (sha256 : Bytes → Bytes) where
  -- A message is read twice, and the second one is kept.
  unfoldable pub read_again : Bytes → Option Msg → Exec (List (Option Msg))
  read_again id none = pure []
  read_again id (some m) = do o ← get_msg sha256 id; pure (o ∷ [])

  unfoldable pub gemini_input : List Bytes → Exec (List (Option Msg))
  gemini_input [] = pure []
  gemini_input (id ∷ ids) = do
    i ← lookup_fast sha256 id false
    m ← elim i [ none ↦ pure [] | some mi ↦ (do o ← get_msg sha256 mi.id; read_again mi.id o) ]
    rest ← gemini_input ids
    pure (m ++ rest)

unfoldable pub page_path : Bytes → Msg → Bytes
page_path dir m = dir ++ b'/' ∷ m.msg_id ++ codes ".gmi"

unfoldable pub page_files : Bytes → Bytes × Option (Bytes × Bytes) → List (Bytes × Bytes)
page_files path (page, none) = (path, page) ∷ []
page_files path (page, some file) = (path, page) ∷ file ∷ []

module _ (date_text : ℤ → Bytes) (create : Bytes → Bool) where
  unfoldable pub gemini_files : Bytes → List Msg → List (Bytes × Bytes)
  gemini_files dir [] = []
  gemini_files dir (m ∷ mm) =
      let rest = gemini_files dir mm in
      let path = page_path dir m in
      if create path then page_files path (gemini date_text create m dir) ++ rest else rest

  unfoldable pub gemini_command : (Bytes → Bytes) → Bytes → List Bytes → Exec (List (Bytes × Bytes))
  gemini_command sha256 arg ids = do
    e ← load_index sha256
    read ← gemini_input sha256 ids
    elim (all_read sha256 read) [
      | none ↦ fault nil_pointer
      | some mm ↦ pure (gemini_files (trim_suffix arg b'/') mm)
    ]
