-- ===== src/Http/Accounts/Reopened.antt =====
-- A change of an account that says nothing of its status.
use laap.Base.{refl, sym, Option, String, arith, none, some, ◌≡◌, ap, ◌∙◌}
use laap.Accounts.{AccountPatch}
use laap.Accounts.Patched.{HasStatus, update_account-HasStatus}
use laap.Db.{Moment}
use laap.Exec.{Failure, ok, or_throw, pure}
use laap.Exec.Yields.{Yields, Yields-bind, Yields-ensure, Yields-ok, Yields-skip}
use laap.Http.Accounts.{update_route}
use laap.Http.Context.{
  Document, Reply, Request, Runtime, object, parsed, part, read_input, read_json, route_uuid,
  safe_parse,
}
use laap.Schema.{Db}
use laap.Types.{AccountStatus, ApiUser}
use laap.Validation.{Fields, Zod, missing}
use laap.Validation.Requests.{account_update_schema}

thrown_or :
    {A : Type 0} (Q : A → Db → Type 0) (o : Option A) (e : Failure) (db : Db)
    → ((a : A) → o ≡ some a → Q a db)
    → Yields Q (or_throw o e db)
unfolding or_throw
thrown_or Q none e db h = tt
thrown_or Q (some a) e db h = h a refl

defaults :
    (z : Zod) (f : Fields) (p : AccountPatch)
    → account_update_schema z f ≡ some p
    → f "status" ≡ missing
    → p.status ≡ some AccountStatus.available
unfolding account_update_schema
defaults z f p e absent = let e' = rw absent at e in ground arith

-- the JSON that the request carries, with `{}` for an empty body
abbrev pub body_of : Request → Option Document
body_of r = parsed r.body.chunks r.body.document

read_json-body :
    (r : Request) (d : Document) (db : Db)
    → body_of r ≡ some d
    → Yields (λ x _. x ≡ d) (read_json r.body db)
unfolding read_json
read_json-body r d db e =
    Yields-ensure _ _ _ _ db
      λ small. Yields-ensure _ _ _ _ db λ fits. thrown_or _ (body_of r) _ db λ x found. cc

read_input-status :
    (rt : Runtime) (r : Request) (f : Fields) (e : Failure) (db : Db)
    → body_of r ≡ some (object f)
    → f "status" ≡ missing
    → Yields
        (λ p _. p.status ≡ some AccountStatus.available)
        (read_input (account_update_schema rt.zod) e r db)
unfolding read_input
read_input-status rt r f e db body absent =
    Yields-bind (λ x _. x ≡ object f) _ _ _ db (read_json-body r (object f) db body)
      λ x db' same. thrown_or _ (safe_parse (account_update_schema rt.zod) x) _ db' λ p found.
        defaults rt.zod f p (ap (safe_parse (account_update_schema rt.zod)) (sym same) ∙ found)
          absent

route_uuid-id :
    (rt : Runtime) (value : Option String) (id code : String) (db : Db)
    → value ≡ some id
    → Yields (λ x _. x ≡ id) (route_uuid rt value code db)
unfolding route_uuid
route_uuid-id rt value id code db e = rw e (thrown_or _ _ _ db λ x found. ground arith)

-- A PATCH of an account whose body is an object without a status: where it succeeds, the account is
-- available afterwards, whatever its status was, as the default of `accountCreateSchema` applies in
-- `accountUpdateSchema` too.
pub update_route-reopens :
    (rt : Runtime) (m : Moment) (r : Request) (user : ApiUser) (f : Fields) (account_id : String)
    (reply : Reply) (db db' : Db)
    → part 2 r.parts ≡ some account_id
    → body_of r ≡ some (object f)
    → f "status" ≡ missing
    → update_route rt m r user db ≡ ok reply db'
    → HasStatus account_id AccountStatus.available db'
unfolding update_route pure
update_route-reopens rt m r user f account_id reply db db' named body absent e =
    let Q = HasStatus account_id AccountStatus.available in
    Yields-ok (λ _. Q) _ reply db'
      (Yields-skip (λ _. Q) _ _ db
        λ _ d.
          Yields-bind (λ p _. p.status ≡ some AccountStatus.available) _ _ _ d
            (read_input-status rt r f _ d body absent)
            λ p d1 given.
              Yields-bind (λ x _. x ≡ account_id) _ _ _ d1
                (route_uuid-id rt (part 2 r.parts) account_id _ d1 named)
                λ x d2 same.
                  Yields-bind (λ _. Q) _ _ _ d2
                    (rw same (
                      update_account-HasStatus m user.id account_id p AccountStatus.available d2
                        given))
                    λ _ d3 h. h)
      e
