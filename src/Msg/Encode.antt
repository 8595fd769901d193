-- ===== src/Msg/Encode.antt =====
-- ii/msg.go: type Msg, its raw text and its bundle line.
use ii_go.Base.{◌==◌, if◌then◌else◌, Bytes, str_eq, ℤ, pos, negsuc, Bool, false, [], ◌∷◌, ◌++◌}
use ii_go.Strings.{join}
use ii_go.Decimal.{print_int}
use ii_go.Base64
use ii_go.Msg.Tags.{Tags, to_string}
use ii_go.Msg.Valid.{make_msg_id}

pub record Msg : Type 0 where
  pub msg_id : Bytes
  pub tags : Tags
  pub echo : Bytes
  pub date : ℤ
  pub from : Bytes
  pub addr : Bytes
  pub to : Bytes
  pub subj : Bytes
  pub text : Bytes

-- (m *Msg) String
unfoldable pub raw_text : Msg → Bytes
raw_text m =
    join
      (to_string m.tags
        ∷ m.echo
        ∷ print_int m.date
        ∷ m.from
        ∷ m.addr
        ∷ m.to
        ∷ m.subj
        ∷ []
        ∷ m.text
        ∷ [])
      b'\n'

abbrev pub is_zero : ℤ → Bool
is_zero (pos n) = n == 0
is_zero (negsuc n) = false

module _ (sha256 : Bytes → Bytes) (now : ℤ) where
  -- The date and the id that Encode fills in, in the message itself.
  unfoldable pub dated : Msg → Msg
  dated m = if is_zero m.date then record m { date = now } else m

  unfoldable pub named : Msg → Msg
  named m = if str_eq m.msg_id [] then record m { msg_id = make_msg_id sha256 (raw_text m) } else m

  -- (m *Msg) Encode: the bundle line and the message as it is left. The text is taken before the id
  -- is filled in, and the id is no part of it.
  unfoldable pub encode : Msg → Bytes × Msg
  encode m =
      if str_eq m.echo []
      then ([], m)
      else (let m' = named (dated m) in
          (m'.msg_id ++ b':' ∷ Base64.encode Base64.std (raw_text (dated m)), m'))
