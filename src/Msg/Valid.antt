-- ===== src/Msg/Valid.antt =====
-- ii/msg.go: the validators, and MsgId.
pub mod Laws
use ii_go.Base.{ltb, leb, ◌==◌, length, take, Bytes, codes, Bool, true, ◌&&◌, not}
use ii_go.Strings.{contains, has_prefix, replace, trim_space}
use ii_go.Base64

-- IsMsgId
unfoldable pub is_msg_id : Bytes → Bool
unfolding contains
is_msg_id id = length id == 20 && not (contains id b'.')

-- IsPrivate
unfoldable pub is_private : Bytes → Bool
is_private e = has_prefix e (codes ".")

-- IsEcho
unfoldable pub is_echo : Bytes → Bool
unfolding contains
is_echo e = leb 3 (length e) && leb (length e) 120 && contains e b'.' && not (contains e b':')

-- IsSubject
unfoldable pub is_subject : Bytes → Bool
is_subject s = true

-- IsEmptySubject, which tells, despite its name, that the subject is not empty.
unfoldable pub is_empty_subject : Bytes → Bool
unfolding trim_space
is_empty_subject s = ltb 0 (length (trim_space s))

-- MsgId, with the digest of crypto/sha256 as a parameter.
unfoldable pub make_msg_id : (Bytes → Bytes) → Bytes → Bytes
unfolding Base64.encode replace
make_msg_id sha256 msg =
    take 20 (replace (replace (Base64.encode Base64.std (sha256 msg)) b'+' b'A') b'/' b'Z')
