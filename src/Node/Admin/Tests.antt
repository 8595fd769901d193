-- ===== src/Node/Admin/Tests.antt =====
-- The theorem on blocked users at a concrete input.
use ii_go.Base.{codes, ok, ◌≡◌, refl, inl, true}
use ii_go.Msg.Tests.{no_digest, sample}
use ii_go.Db.Tests.{stored}
use ii_go.Node.Tests.{peter}
use ii_go.Node.Points.{point_policy}
use ii_go.Node.Admin.{command}
use ii_go.Node.Admin.Posts.{point_policy-command}

point_policy-command_example :
    point_policy no_digest
      (record peter { tags = command (codes "block") peter.tags })
      sample
      stored
    ≡ (ok true, stored)
point_policy-command_example =
    point_policy-command no_digest (codes "block") peter sample stored (inl refl)
