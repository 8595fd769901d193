-- ===== src/Net.antt =====
-- ii/net.go: what the program asks other nodes for. The network is a parameter: what a GET of a url
-- gives while a fetch runs. A callback of http_req_lines always goes on, so that the calls of it are
-- the lines that it is called with.
pub mod Batches
pub mod Storing
pub mod Missing
pub mod Adaptive
pub mod Fetching
pub mod Tests
use ii_go.Base.{
  ltb, if◌then◌else◌, Bytes, codes, str_eq, ℤ, pos, negsuc, is_neg, residue, of_residue, ok, err, ℕ,
  zero, suc, ◌+◌, ◌-◌, ◌*◌, ◌%◌, ◌^◌, Bool, true, false, ◌&&◌, ◌||◌, not, Option, none, some, List,
  [], ◌∷◌, ◌++◌,
}
use ii_go.Dict
use ii_go.Decimal.{print_int}
use ii_go.Base64
use ii_go.Strings.{split, contains, has_prefix, trim_suffix}
use ii_go.Msg.Valid.{is_msg_id, is_echo}
use ii_go.Msg.Decode.{decode_bundle}
use ii_go.Db.Index.{MsgInfo}
use ii_go.Db.State.{Exec, ◌>>=◌, ◌>>◌, pure}
use ii_go.Db.State.Files.{lines}
use ii_go.Db.Access.{exists, store}

-- The answer to a GET: none, or a body, and whether an error ends it.
pub data Response : Type 0 where
  no_answer : Response
  answer : Bytes → Bool → Response

abbrev pub last_part : List Bytes → Bytes
last_part [] = []
last_part (p ∷ []) = p
last_part (p ∷ q ∷ ps) = last_part (q ∷ ps)

-- What stands behind the last newline counts as a line if the body ends well.
unfoldable pub final_line : Bytes → Bool → List Bytes
final_line text cut =
    let rest = last_part (split text b'\n') in if cut || str_eq rest [] then [] else rest ∷ []

-- The lines of http_req_lines, and whether it fails.
unfoldable pub http_req_lines : Response → List Bytes × Bool
http_req_lines no_answer = ([], true)
http_req_lines (answer text cut) = (lines text ++ final_line text cut, cut)

-- http_get_id
unfoldable pub id_lines : List Bytes → Bytes
id_lines [] = []
id_lines (l ∷ ls) = if contains l b'.' then id_lines ls else l ++ id_lines ls

unfoldable pub http_get_id : Response → Option Bytes
http_get_id r = let (ls, failed) = http_req_lines r in if failed then none else some (id_lines ls)

-- `-limit` and `limit *= 2`
unfoldable pub negated : ℤ → ℤ
negated z = of_residue ((2 ^ 64 - residue z) % 2 ^ 64)

unfoldable pub doubled : ℤ → ℤ
doubled z = of_residue ((2 * residue z) % 2 ^ 64)

abbrev pub is_above_zero : ℤ → Bool
is_above_zero (pos zero) = false
is_above_zero (pos (suc n)) = true
is_above_zero (negsuc n) = false

pub record Node : Type 0 where
  pub host : Bytes
  pub features : List (Bytes × Bool)
  pub force : Bool

-- IsFeature
unfoldable pub is_feature : Node → Bytes → Bool
is_feature n f = elim (Dict.get n.features f) [ none ↦ false | some b ↦ true ]

unfoldable pub add_features : List Bytes → List (Bytes × Bool) → List (Bytes × Bool)
add_features [] fs = fs
add_features (l ∷ ls) fs = add_features ls (Dict.put fs l true)

-- The answers to a message that is sent.
pub data SendError : Type 0 where
  no_connection no_ok read_failed : SendError
  refused : Bytes → SendError

unfoldable pub send_answer : Response → Option SendError
send_answer no_answer = some no_connection
send_answer (answer text cut) =
    if has_prefix text (codes "msg ok")
    then none
    else if not (str_eq text [])
    then some (refused text)
    else if cut
    then some read_failed
    else some no_ok

abbrev pub first_column : List Bytes → Bytes
first_column [] = []
first_column (c ∷ cs) = c

unfoldable pub names_of : List Bytes → List Bytes
names_of [] = []
names_of (l ∷ ls) = first_column (split l b':') ∷ names_of ls

-- The areas that Fetch starts a fetcher for.
unfoldable pub echoes_of : List Bytes → List Bytes
echoes_of [] = []
echoes_of (e ∷ es) = if is_echo e then e ∷ echoes_of es else echoes_of es

abbrev pub area_url : Node → Bytes → Bytes
area_url n echo = n.host ++ codes "/u/e/" ++ echo

abbrev pub slice : Bytes → ℤ → Bytes → Bytes
slice url start count = url ++ b'/' ∷ print_int start ++ b':' ∷ count

abbrev pub absent : Option MsgInfo → Bool
absent none = true
absent (some i) = false

abbrev pub is_nil : List Bytes → Bool
is_nil [] = true
is_nil (x ∷ xs) = false

module _ (http_get : Bytes → Response) where
  -- Connect
  unfoldable pub connect : Bytes → Option Node
  connect addr =
      let host = trim_suffix addr b'/' in
      let (ls, failed) = http_req_lines (http_get (host ++ codes "/x/features")) in
      if failed
      then none
      else some (record { host = host; features = add_features ls []; force = false })

  -- Send
  unfoldable pub send : Node → Bytes → Bytes → Option SendError
  send n pauth msg =
      send_answer
        (http_get (n.host ++ codes "/u/point/" ++ pauth ++ b'/' ∷ Base64.encode Base64.url msg))

  -- List; the error comes with the lines before it.
  unfoldable pub list : Node → List Bytes × Bool
  list n =
      if is_feature n (codes "list.txt")
      then (let (ls, failed) = http_req_lines (http_get (n.host ++ codes "/list.txt")) in
          (names_of ls, failed))
      else ([], false)

  -- Fetch, up to the fetchers that it starts.
  unfoldable pub fetch_echoes : Node → List Bytes → List Bytes
  fetch_echoes n [] = echoes_of (list n).0
  fetch_echoes n (e ∷ es) = echoes_of (e ∷ es)

  module _ (sha256 : Bytes → Bytes) (now : ℤ) where
    -- The callback of Node.Store, on the lines of an answer.
    unfoldable pub store_line : Bytes → Exec (Unit {0})
    store_line b = elim (decode_bundle sha256 b) [
      | err e ↦ pure tt
      | ok m ↦ do e ← store sha256 now m; pure tt
    ]

    unfoldable pub store_lines : List Bytes → Exec (Unit {0})
    store_lines [] = pure tt
    store_lines (b ∷ bs) = do t ← store_line b; store_lines bs

    -- Node.Store, from the request that is put together, and the number of its ids; whether it fails.
    unfoldable pub store_ids : Node → List Bytes → Bytes → ℕ → Exec Bool
    store_ids n [] req nreq = pure false
    store_ids n (id ∷ ids) req nreq =
        let asked = req ++ b'/' ∷ id in
        let more = store_ids n ids asked (nreq + 1) in
        let next = store_ids n ids [] 0 in
        elim (ltb (nreq + 1) 8 && not (is_nil ids)) [
          | true ↦ more
          | false ↦
              let (ls, failed) = http_req_lines (http_get (n.host ++ codes "/u/m" ++ asked)) in
              do t ← store_lines ls; if failed then pure true else next
        ]

    -- The adaptive mode, from the number of tries that are left: the limit at which an id is known.
    unfoldable pub adaptive : Node → Bytes → ℕ → ℤ → Exec ℤ
    adaptive n echo zero limit = pure (pos 0)
    adaptive n echo (suc tries) limit =
        let again = adaptive n echo tries (doubled limit) in
        elim (http_get_id (http_get (slice (area_url n echo) (negated limit) (codes "1")))) [
          | none ↦ pure (pos 0)
          | some id ↦
              if not (is_msg_id id)
              then pure (pos 0)
              else do known ← exists sha256 id; if absent known then again else pure limit
        ]

    -- Whether the last message of the area is new; a node in force mode is not asked.
    unfoldable pub needs_sync : Node → Bytes → Exec Bool
    needs_sync n echo =
        if n.force
        then pure true
        else elim (http_get_id (http_get (slice (area_url n echo) (negsuc 0) (codes "1")))) [
          | none ↦ pure false
          | some id ↦
              if not (is_msg_id id)
              then pure false
              else do known ← exists sha256 id; pure (absent known)
        ]

    unfoldable pub found_limit : Node → Bytes → ℤ → Exec ℤ
    found_limit n echo limit =
        if is_neg limit then adaptive n echo 17 (negated limit) else pure limit

    -- The lines of the answer that are ids of messages the database lacks.
    unfoldable pub new_ids : List Bytes → Exec (List Bytes)
    new_ids [] = pure []
    new_ids (l ∷ ls) =
        let rest = new_ids ls in
        elim (contains l b'.') [
          | true ↦ rest
          | false ↦ do
            known ← exists sha256 l
            more ← rest
            pure (if absent known then l ∷ more else more)
        ]

    unfoldable pub ids_url : Node → Bytes → ℤ → Bytes
    ids_url n echo limit =
        if is_above_zero limit
        then slice (area_url n echo) (negated limit) (print_int limit)
        else area_url n echo

    unfoldable pub fetch_ids : Node → Bytes → ℤ → Exec (Unit {0})
    fetch_ids n echo limit =
        let (ls, failed) = http_req_lines (http_get (ids_url n echo limit)) in
        do ids ← new_ids ls; stored ← (if failed then pure true else store_ids n ids [] 0); pure tt

    unfoldable pub fetch_needed : Node → Bytes → ℤ → Bool → Exec (Unit {0})
    fetch_needed n echo limit false = pure tt
    fetch_needed n echo limit true = do found ← found_limit n echo limit; fetch_ids n echo found

    -- Fetcher
    unfoldable pub fetcher : Node → Bytes → ℤ → Exec (Unit {0})
    fetcher n echo limit =
        let fast = (do needed ← needs_sync n echo; fetch_needed n echo limit needed) in
        if is_feature n (codes "u/e") then fast else fetch_ids n echo (pos 0)
