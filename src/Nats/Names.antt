-- ===== src/Nats/Names.antt =====
-- nats_workqueue/workqueue.go: which queue names are accepted, and the names of the streams, subjects
-- and consumers that are made from them.
use Prim.Native.Char.{code}
use text.Mathlib.TextLemmas.{
  nil-append, cons-append, append-ne-nil_of_right_ne-nil, append_cancel_left, append_cancel_right,
}
use workqueue_modules.Prelude.{
  ℕ, ◌≡◌, ◌≢◌, inl, inr, Bool-cases, refl, String, str_append, Bool, true, false, not, ◌||◌, str_eq,
  ◌==◌, arith, eq_iff,
}

-- The characters of `".*> /\\\t\n"`.
abbrev is_refused : ℕ → Bool
is_refused c = c == 46 || c == 42 || c == 62 || c == 32 || c == 47 || c == 92 || c == 9 || c == 10

-- `strings.ContainsAny`
unfoldable pub contains_refused : String → Bool
contains_refused String.[] = false
contains_refused (String.◌∷◌ c s) = is_refused (code c) || contains_refused s

-- validateQueue returns no error.
unfoldable pub validate_queue : String → Bool
validate_queue queue = not (str_eq queue "" || contains_refused queue)

unfoldable pub stream_name : String → String → String
stream_name prefix queue = str_append prefix (str_append "_" queue)

unfoldable pub dlq_stream_name : String → String → String
dlq_stream_name prefix queue = str_append prefix (str_append "_" (str_append queue "_DLQ"))

unfoldable pub tasks_subject : String → String → String
tasks_subject prefix queue = str_append prefix (str_append "." (str_append queue ".tasks"))

unfoldable pub dead_subject : String → String → String
dead_subject prefix queue = str_append prefix (str_append "." (str_append queue ".dead"))

unfoldable pub consumer_name : String → String → String
consumer_name prefix queue = str_append prefix (str_append "_" (str_append queue "_workers"))

contains_refused-append :
    (s t : String) → contains_refused (str_append s t) ≡ (contains_refused s || contains_refused t)
unfolding contains_refused
contains_refused-append String.[] t = rw (nil-append t) refl
contains_refused-append (String.◌∷◌ c s) t =
    rw (cons-append c s t, contains_refused-append s t) (ground arith)

suffix_nonempty : ◌≢◌ {A = String} "_DLQ" ""
suffix_nonempty e = cc e

append-nonempty : (s : String) → str_eq (str_append s "_DLQ") "" ≡ false
append-nonempty s = elim (Bool-cases (str_eq (str_append s "_DLQ") "")) [
  | inl e ↦ absurd (append-ne-nil_of_right_ne-nil s suffix_nonempty ((eq_iff _ _).0 e))
  | inr e ↦ e
]

-- Two accepted queues can share a stream: for every accepted queue, the name with `_DLQ` appended is
-- accepted too, and the task stream of that queue has the name of the first one's dead-letter
-- stream, whatever the prefix.
pub dlq_stream_shared :
    (prefix queue : String)
    → validate_queue queue ≡ true
    → (validate_queue (str_append queue "_DLQ") ≡ true)
      × (stream_name prefix (str_append queue "_DLQ") ≡ dlq_stream_name prefix queue)
unfolding validate_queue stream_name dlq_stream_name contains_refused
dlq_stream_shared prefix queue valid =
    (ground (arith, contains_refused-append queue "_DLQ", append-nonempty queue), refl)

-- Two queues never share a task stream, a dead-letter stream, a subject or a consumer of the same
-- kind: each of these names determines the queue.
pub names_determine_queue :
    (prefix q r : String)
    → (stream_name prefix q ≡ stream_name prefix r → q ≡ r)
      × (dlq_stream_name prefix q ≡ dlq_stream_name prefix r → q ≡ r)
      × (tasks_subject prefix q ≡ tasks_subject prefix r → q ≡ r)
      × (dead_subject prefix q ≡ dead_subject prefix r → q ≡ r)
      × (consumer_name prefix q ≡ consumer_name prefix r → q ≡ r)
unfolding stream_name dlq_stream_name tasks_subject dead_subject consumer_name
names_determine_queue prefix q r = (
  λ e. append_cancel_left "_" q r (append_cancel_left prefix _ _ e),
  λ e. framed "_" "_DLQ" e,
  λ e. framed "." ".tasks" e,
  λ e. framed "." ".dead" e,
  λ e. framed "_" "_workers" e,
)
  where
    framed :
        (before after : String)
        → str_append prefix (str_append before (str_append q after))
          ≡ str_append prefix (str_append before (str_append r after))
        → q ≡ r
    framed before after e =
        append_cancel_right q r after
          (append_cancel_left before _ _ (append_cancel_left prefix _ _ e))
