-- ===== src/Node/Web/Tests.antt =====
-- The theorems on the forms of web pages at concrete inputs.
use ii_go.Node.Tests.{says, peter, stored_name}
use ii_go.Node.Web.{Form, Page, msg_access, www_blacklist, www_new}
use ii_go.Node.Web.Shown.{shown}
use ii_go.Node.Web.Laws.{Kept, IsOwn, www_new-IsOwn, www_blacklist-IsOwn}
use ii_go.Db.Tests.{stored, stored-IsSynced}
use ii_go.Msg.Tests.{no_digest, sample}
use ii_go.Msg.Encode.{Msg}
use ii_go.Echoes.{no_areas}
use ii_go.Base.{Bytes, codes, str_eq, pos, ok, ◌≡◌, refl, true, false, some, [], ◌∷◌}

abbrev web_form : Bytes → Form
web_form id = record {
  subj = codes "Hello";
  to = codes "All";
  msg = codes "body";
  repto = [];
  id = id;
  echo = codes "std.test";
  submit = true;
}

www_new-IsOwn_example :
    (p : Page) × ((www_new no_digest
        (pos 7)
        says
        no_areas
        peter
        []
        (web_form sample.msg_id)
        stored).0
      ≡ ok p)
    × Kept no_digest
        (pos 7)
        says
        no_areas
        peter
        (sample ∷ [])
        (codes "node")
        ((str_eq peter.name [] ≡ false)
          × IsOwn no_digest
              (pos 7)
              says
              no_areas
              peter
              (sample ∷ [])
              (codes "node")
              (web_form sample.msg_id))
        p
        (www_new no_digest (pos 7) says no_areas peter [] (web_form sample.msg_id) stored).1
www_new-IsOwn_example =
    www_new-IsOwn no_digest (pos 7) says no_areas peter (sample ∷ []) (codes "node") stored []
      (web_form sample.msg_id) (stored-IsSynced, stored_name) refl

www_blacklist-IsOwn_example :
    (p : Page) × ((www_blacklist no_digest (pos 7) says no_areas peter sample.msg_id stored).0
      ≡ ok p)
    × Kept no_digest
        (pos 7)
        says
        no_areas
        peter
        (sample ∷ [])
        (codes "node")
        ((m : Msg) × (shown no_digest (sample ∷ []) (codes "node") sample.msg_id ≡ some m)
          × (msg_access (codes "node") m peter ≡ true))
        p
        (www_blacklist no_digest (pos 7) says no_areas peter sample.msg_id stored).1
www_blacklist-IsOwn_example =
    www_blacklist-IsOwn no_digest (pos 7) says no_areas peter (sample ∷ []) (codes "node") stored
      sample.msg_id (stored-IsSynced, stored_name)
