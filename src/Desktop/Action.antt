-- ===== src/Desktop/Action.antt =====
-- An async function of the desktop application: it returns or throws, and what it set before a throw
-- stays set.
pub mod Holds
use Prim.Native.String.{◌++◌}
use laap.Base.{ℕ, ◌==◌, ◌≡◌, refl, Bool, Option, String, false, if◌then◌else◌, none, some, true}

-- What is thrown: an `Error`, with a status and a code where it is an `ApiError`, or a text, as Tauri
-- does.
pub record Cause : Type 0 where
  pub is_error : Bool
  pub status : Option ℕ
  pub code : Option String
  pub message : String

-- `new Error(message)`
abbrev pub error : String → Cause
error message = record { is_error = true; status = none; code = none; message = message }

-- template literals
abbrev pub concat : String → String → String
concat a b = a ++ b

-- `String(cause)`; `cause instanceof Error ? cause.message : String(cause)` is the message
abbrev pub as_text : Cause → String
as_text c = if c.is_error then concat "Error: " c.message else c.message

-- `value || fallback`
abbrev pub or_text : Option String → String → String
or_text none d = d
or_text (some t) d = if t == "" then d else t

pub data Result (S A : Type 0) : Type 0 where
  ok : A → S → Result S A
  thrown : Cause → S → Result S A

abbrev pub Act : Type 0 → Type 0 → Type 0
Act S A = S → Result S A

-- the state that an action leaves
abbrev pub left : {S A : Type 0} → Result S A → S
left (ok a s) = s
left (thrown c s) = s

module _ {S A : Type 0} where
  unfoldable pub pure : A → Act S A
  pure a s = ok a s

  unfoldable pub throw : Cause → Act S A
  throw c s = thrown c s

  unfoldable pub gets : (S → A) → Act S A
  gets f s = ok (f s) s

-- assignments to the state
unfoldable pub modify : {S : Type 0} → (S → S) → Act S (Unit {0})
modify f s = ok tt (f s)

-- `if (test) action`
unfoldable pub when : {S : Type 0} → Bool → Act S (Unit {0}) → Act S (Unit {0})
when true m s = m s
when false m s = ok tt s

module _ {S A B : Type 0} where
  abbrev pub continue : Result S A → (A → Act S B) → Result S B
  continue (ok a s) f = f a s
  continue (thrown c s) f = thrown c s

  infixl 10 ◌>>=◌ ◌>>◌
  unfoldable pub ◌>>=◌ : Act S A → (A → Act S B) → Act S B
  unfolding pure throw gets modify when
  ◌>>=◌ m f s = continue (m s) f

  abbrev pub ◌>>◌ : Act S A → Act S B → Act S B
  m >> n = m >>= λ _. n

module _ {S A : Type 0} where
  abbrev pub rescue : Result S A → (Cause → Act S A) → Result S A
  rescue (ok a s) f = ok a s
  rescue (thrown c s) f = f c s

  -- `try { action } catch (cause) { handler }`
  unfoldable pub attempt : Act S A → (Cause → Act S A) → Act S A
  attempt m f s = rescue (m s) f

  abbrev then_return : A → Result S (Unit {0}) → Result S A
  then_return a (ok u s) = ok a s
  then_return a (thrown c s) = thrown c s

  abbrev then_throw : Cause → Result S (Unit {0}) → Result S A
  then_throw c (ok u s) = thrown c s
  then_throw c (thrown d s) = thrown d s

  abbrev pub settle : Result S A → Act S (Unit {0}) → Result S A
  settle (ok a s) last = then_return a (last s)
  settle (thrown c s) last = then_throw c (last s)

  -- `try { action } finally { last }`: what `last` throws is thrown
  unfoldable pub finally : Act S A → Act S (Unit {0}) → Act S A
  finally m last s = settle (m s) last

pub left-modify : {S : Type 0} (f : S → S) (s : S) → left (modify f s) ≡ f s
unfolding modify
left-modify f s = refl
