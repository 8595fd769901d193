-- ===== src/Tool/Commands/Endless.antt =====
-- ii-tool/main.go: the loop of get -t over the parents of a message.
use ii_go.Base.{Bool-cases, Bytes, str_eq, ℕ, zero, suc, ◌≡◌, refl, inl, inr, false, none, some}
use ii_go.Db.Index.{MsgInfo}
use ii_go.Db.Topics.{Hash, parent_of}
use ii_go.Tool.Commands.{topic_root}

module _ (sha256 : Bytes → Bytes) (echo : Bytes) (hash : Hash) where
  -- Two messages that reply to each other: with no fuel does the loop of get -t end that has come to one of
  -- them, whatever areas they are in. It stops only at a message that replies to itself.
  pub topic_root-none :
      (fuel : ℕ) (topic : Bytes) (a b : MsgInfo)
      → parent_of hash a.repto ≡ some b
      → parent_of hash b.repto ≡ some a
      → str_eq a.repto a.id ≡ false
      → str_eq b.repto b.id ≡ false
      → topic_root sha256 fuel echo hash topic (some a) ≡ none
  unfolding topic_root
  topic_root-none zero topic a b pa pb na nb = refl
  topic_root-none (suc fuel) topic a b pa pb na nb = elim (Bool-cases (str_eq a.echo echo)) [
    | inl e ↦ rw (topic_root, na, e, pa) (topic_root-none fuel a.id b a pb pa nb na)
    | inr e ↦ rw (topic_root, na, e, pa) (topic_root-none fuel topic b a pb pa nb na)
  ]
