-- ===== src/Net.antt =====
-- The answer of a POST (src/core/node.ts `post`): which outcomes are definitive, and which leave the request possibly
-- ingested. `fetch` itself is the environment's: its outcome is an argument.
use cairn_wallet.Base.{ℕ, Bool, true, false, ◌||◌, ◌&&◌, Option, none, some, leb, if◌then◌else◌}
use cairn_wallet.Base.Text.{Text}

-- The fields that the wallet reads off a JSON object: `j.ok` as a truth value, `j.err` and `j.error` as texts, `none`
-- where they are null or missing, `j.txid`, and whether it carries a `maybeInflight` of its own.
pub record ReplyFields : Type 0 where
  pub ok : Bool
  pub err : Option Text
  pub error : Option Text
  pub txid : Option Text
  pub claims_inflight : Bool

pub data Body : Type 0 where
  -- not JSON
  unreadable : Body
  -- null, an array or no object
  not_object : Body
  fields : ReplyFields → Body

pub data HttpReply : Type 0 where
  -- the request threw: refused, reset or timed out
  network_error : HttpReply
  responded : (status : ℕ) (body : Body) → HttpReply

pub record PostResult : Type 0 where
  pub ok : Bool
  pub err : Option Text
  pub txid : Option Text
  pub maybe_inflight : Bool

-- `r.ok`
unfoldable pub is_success : ℕ → Bool
is_success status = leb 200 status && leb status 299

abbrev failure : Option Text → Bool → PostResult
failure err maybe = record { ok = false; err = err; txid = none; maybe_inflight = maybe }

-- `j.err ?? j.error`, which only the body of a failure is read for
unfoldable pub body_err : Body → Option Text
body_err (fields f) = elim f.err [ some t ↦ some t | none ↦ f.error ]
body_err _ = none

is_unreadable : Body → Bool
is_unreadable unreadable = true
is_unreadable _ = false

-- the body of a success status, unchanged but for `maybeInflight`: of it only `err` is read
accepted : Body → PostResult
accepted unreadable = failure none true
accepted not_object = failure none true
accepted (fields f) = record { ok = f.ok; err = f.err; txid = f.txid; maybe_inflight = false }

unfoldable pub post : HttpReply → PostResult
unfolding is_success body_err is_unreadable accepted
post network_error = failure none true
post (responded status body) =
    if is_success status
    then accepted body
    else failure (body_err body) (leb 500 status || is_unreadable body)
