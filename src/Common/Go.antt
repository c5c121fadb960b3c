-- ===== src/Common/Go.antt =====
-- The parts of Go that the program leans on: error values and their chains, results that may be
-- an error or a panic, and effects as state passing over an abstract outside world `W`.
use Prim.Native.String.{String}
use Prim.Native.String as Text
use mathlib.Core.Path.{◌≡◌, refl}
use mathlib.Core.Logic.{◌≢◌}
use mathlib.Core.Bool.{Bool, true, false, ◌||◌}
use mathlib.Core.Option.{Option, none, some}

-- The package variables of business/tasks.
pub data TasksError : Type 0 where
  dispatch_task_before_init : TasksError
  failed_to_send_message : TasksError
  failed_to_receive_messages : TasksError
  task_status_not_found : TasksError

-- The package variables of adapters/repository.
pub data RepositoryError : Type 0 where
  failed_to_marshal_task : RepositoryError
  failed_to_unmarshal_task : RepositoryError
  failed_to_enqueue_task : RepositoryError
  failed_to_receive_messages : RepositoryError
  failed_to_delete_message : RepositoryError
  failed_to_get_task_bucket : RepositoryError

-- How the program tells the errors of the AWS SDK apart.
pub data ExternalKind : Type 0 where
  resource_not_found : ExternalKind
  context_canceled : ExternalKind
  other : ExternalKind

-- A Go error: a package variable, `fmt.Errorf` without `%w`, with one `%w` behind a prefix, with
-- "%w: %w", or an error that third-party code made.
pub data GoError : Type 0 where
  tasks : TasksError → GoError
  repository : RepositoryError → GoError
  init_failed : GoError
  plain : String → GoError
  wrap : String → GoError → GoError
  join : GoError → GoError → GoError
  external : ExternalKind → String → GoError

infixr 65 ◌<>◌
abbrev pub ◌<>◌ : String → String → String
a <> b = Text.◌++◌ a b

abbrev pub tasks_text : TasksError → String
tasks_text TasksError.dispatch_task_before_init = "called dispatch task before init"
tasks_text TasksError.failed_to_send_message = "failed to send message to task queue"
tasks_text TasksError.failed_to_receive_messages = "failed to receive messages from task queue"
tasks_text TasksError.task_status_not_found = "task status not found"

abbrev pub repository_text : RepositoryError → String
repository_text RepositoryError.failed_to_marshal_task = "failed to marshal task"
repository_text RepositoryError.failed_to_unmarshal_task = "failed to unmarshal task"
repository_text RepositoryError.failed_to_enqueue_task = "failed to send message to task queue"
repository_text RepositoryError.failed_to_receive_messages =
    "failed to receive messages from task queue"
repository_text RepositoryError.failed_to_delete_message =
    "failed to delete message from task queue"
repository_text RepositoryError.failed_to_get_task_bucket = "failed to get task bucket"

-- `err.Error()`
unfoldable pub error_text : GoError → String
error_text (tasks e) = tasks_text e
error_text (repository e) = repository_text e
error_text init_failed = "failed to initialize app context"
error_text (plain s) = s
error_text (wrap prefix e) = prefix <> ": " <> error_text e
error_text (join a b) = error_text a <> ": " <> error_text b
error_text (external _ message) = message

-- `errors.Is` and `errors.As`: some error of the chain passes the test.
unfoldable pub chain_has : (GoError → Bool) → GoError → Bool
chain_has p (wrap prefix e) = p (wrap prefix e) || chain_has p e
chain_has p (join a b) = p (join a b) || (chain_has p a || chain_has p b)
chain_has p e = p e

-- What a call comes back with; `panic` is a run-time panic such as a nil dereference.
pub data Res (A : Type 0) : Type 0 where
  ok : A → Res A
  fail : GoError → Res A
  panic : Res A

-- An effect runs over the world outside the program: the databases, queues, clocks and providers.
abbrev pub Io : Type 0 → Type 0 → Type 0
Io W A = W → Res A × W

abbrev pub map_error : {A : Type 0} → (GoError → GoError) → Res A → Res A
map_error f (ok a) = ok a
map_error f (fail e) = fail (f e)
map_error f panic = panic

abbrev pub settle : {A : Type 0} → Res A → Res (Option GoError)
settle (ok _) = ok none
settle (fail e) = ok (some e)
settle panic = panic

module _ {W : Type 0} where
  module _ {A : Type 0} where
    abbrev pub pure : A → Io W A
    pure a w = (ok a, w)

    abbrev pub raise : GoError → Io W A
    raise e w = (fail e, w)

    abbrev pub crash : Io W A
    crash w = (panic, w)

    -- a result that is computed with no effect
    abbrev pub lift : Res A → Io W A
    lift r w = (r, w)

    -- an effect that cannot fail, such as reading the clock
    abbrev pub always : (W → A × W) → Io W A
    always f w = let (a, w') = f w in (ok a, w')

    -- a nil pointer is dereferenced
    abbrev pub deref : Option A → Io W A
    deref none = crash
    deref (some a) = pure a

    -- `if err != nil { return …, f(err) }`
    abbrev pub on_error : (GoError → GoError) → Io W A → Io W A
    on_error f m w = let (r, w') = m w in (map_error f r, w')

    -- the error comes back as a value; a panic goes on
    abbrev pub catch_error : Io W A → Io W (Option GoError)
    catch_error m w = let (r, w') = m w in (settle r, w')

  infixl 5 ◌>>=◌ ◌>>◌
  abbrev pub ◌>>=◌ : {A B : Type 0} → Io W A → (A → Io W B) → Io W B
  ◌>>=◌ m f w =
      let (r, w') = m w in elim r [ ok a ↦ f a w' | fail e ↦ (fail e, w') | panic ↦ (panic, w') ]

  abbrev pub ◌>>◌ : {A B : Type 0} → Io W A → Io W B → Io W B
  m >> k = m >>= λ _. k

abbrev pub is_ok : {A : Type 0} → Res A → Bool
is_ok (ok _) = true
is_ok _ = false

-- The call comes back, with a value or an error.
abbrev pub Returns : {W A : Type 0} → Io W A → Type 0
Returns {W} m = (w : W) → (m w).0 ≢ panic

-- The call comes back with no error.
abbrev pub Succeeds : {W A : Type 0} → Io W A → Type 0
Succeeds {W} m = (w : W) → is_ok (m w).0 ≡ true

-- The call never succeeds.
abbrev pub Rejects : {W A : Type 0} → Io W A → Type 0
Rejects {W} m = (w : W) → is_ok (m w).0 ≡ false

-- What `catch_error` can say of a call, for a split that keeps the equation.
pub data Settled {A : Type 0} (r : Res A) : Type 0 where
  returned : (a : A) → r ≡ ok a → Settled r
  failed : (e : GoError) → r ≡ fail e → Settled r
  panicked : r ≡ panic → Settled r

pub Res-cases : {A : Type 0} (r : Res A) → Settled r
Res-cases (ok a) = returned a refl
Res-cases (fail e) = failed e refl
Res-cases panic = panicked refl
