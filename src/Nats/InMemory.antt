-- ===== src/Nats/InMemory.antt =====
-- The server in memory as a JetStream, and an encoding of one task.
use native.Mathlib.Decide.{ℕ_discrete}
use text.Mathlib.TextEquality.{eq_iff}
use mathlib.Core.Option.{some-injective}
use workqueue_modules.Prelude.{
  ◌≢◌, Bool, str_eq, arith, ℕ, zero, suc, ◌++◌, length, ap, ◌≡◌, refl, subst, ◌∙◌, true, false,
  Option, some, none, String, List, [], ◌∷◌,
}
use workqueue_modules.Workqueue.{Task}
use workqueue_modules.Nats.Broker.{JetStream, TaskCodec}
use workqueue_modules.Nats.Log.{read, number-IsAscending, read-found, read-missing}
use workqueue_modules.Nats.Server.{
  Memory, set_same, set_other, has, entries, ensure, publish_on, answer, delete_at, bounds,
  publish_on-keeps, publish_to-appends, publish_to-elsewhere, answer_takes, answer_elsewhere,
  delete_at-takes, delete_at-misses, delete_at-elsewhere, bounds_lem, published,
  publish_to-duplicate,
}

abbrev pub in_memory : JetStream
in_memory = record {
  Server = Memory;
  stored = entries;
  owner = λ s. s.owner;
  is_duplicate = λ s name id. has id (s.ids name);
  ensure_stream = ensure;
  publish = λ s subject body id. publish_on s (s.owner subject) body id;
  reply = answer;
  has_stream = λ _ _. true;
  info = bounds;
  get_msg = λ s name k. read k (entries s name);
  delete_msg = λ s name k. delete_at s name k (read k (entries s name));
  ensure_owns = λ s c _. set_same c.subject (some c.name) s.owner;
  ensure_keeps_owner = λ s c subject name _ apart owns.
      set_other c.subject subject (some c.name) s.owner apart ∙ owns;
  ensure_keeps_stored = λ s c name. refl;
  publish_appends = λ s subject name body id owns _ fresh. (
    suc (length (s.logs name)),
    published
        (λ x.
          entries x name
          ≡ entries s name ++ record { seq = suc (length (s.logs name)); body = body } ∷ [])
        s subject name body id owns (publish_to-appends s name body id fresh),
  );
  publish_duplicate = λ s subject name body i owns duplicate.
      published (λ x. entries x name ≡ entries s name) s subject name body (some i) owns
        (publish_to-duplicate s name body i duplicate);
  publish_keeps =
      λ s subject name body id e m. publish_on-keeps s (s.owner subject) name body id e m;
  publish_elsewhere = λ s subject name other body id owns apart.
      published (λ x. entries x other ≡ entries s other) s subject name body id owns
        (publish_to-elsewhere s name other body id apart);
  reply_takes = answer_takes;
  nak_keeps = λ s m d name. refl;
  reply_elsewhere = answer_elsewhere;
  ascending = λ s name. number-IsAscending 1 (s.logs name);
  info_bounds = bounds_lem;
  get_finds = λ s name k b h. read-found k (entries s name) b h;
  get_misses = λ s name k e h m. read-missing k (entries s name) e h m;
  delete_takes = λ s name k h. delete_at-takes s name k (read k (entries s name)) h;
  delete_misses = λ s name k h. delete_at-misses s name k (read k (entries s name)) h;
  delete_elsewhere =
      λ s name other k apart. delete_at-elsewhere s name other k (read k (entries s name)) apart;
}

abbrev pub decided : {P : Type 0} (b : Bool) → (b ≡ true → P) → (b ≡ false → ¬ P) → Dec P
decided true f g = yes (f refl)
decided false f g = no (g refl)

pub unequal : (s t : String) → str_eq s t ≡ false → s ≢ t
unequal s t f e = absurd (let h = (eq_iff s t).1 e in ground (arith, h, f))

abbrev pub String-discrete : Discrete String
String-discrete s t = decided (str_eq s t) (λ e. (eq_iff s t).0 e) (unequal s t)

abbrev pub Task-discrete : Discrete Task
Task-discrete = hlevel (ℕ_discrete, String-discrete)

-- The place of a task in a book of tasks, and the task at a place.
abbrev pub here_or : {P : Type 0} → Dec P → Option ℕ → Option ℕ
here_or (yes _) later = some 0
here_or (no _) none = none
here_or (no _) (some n) = some (suc n)

unfoldable pub place : Task → List Task → Option ℕ
place t [] = none
place t (u ∷ us) = here_or (Task-discrete u t) (place t us)

unfoldable pub task_at : List Task → ℕ → Option Task
task_at [] n = none
task_at (u ∷ us) zero = some u
task_at (u ∷ us) (suc n) = task_at us n

here_or-task_at :
    (t u : Task) (us : List Task) (d : Dec (u ≡ t)) (later : Option ℕ) (n : ℕ)
    → ((k : ℕ) → later ≡ some k → task_at us k ≡ some t)
    → here_or d later ≡ some n
    → task_at (u ∷ us) n ≡ some t
unfolding task_at
here_or-task_at t u us (yes same) later zero rest h = ap some same
here_or-task_at t u us (yes same) later (suc n) rest h = absurd (ground (arith, h))
here_or-task_at t u us (no _) none n rest h = absurd (ground (arith, h))
here_or-task_at t u us (no _) (some k) zero rest h = absurd (ground (arith, h))
here_or-task_at t u us (no _) (some k) (suc n) rest h =
    let same : k ≡ n = ground (arith, h) in subst (λ m. task_at us m ≡ some t) same (rest k refl)

pub place-task_at :
    (t : Task) (book : List Task) (n : ℕ) → place t book ≡ some n → task_at book n ≡ some t
unfolding place
place-task_at t [] n h = absurd (ground (arith, h))
place-task_at t (u ∷ us) n h =
    here_or-task_at t u us (Task-discrete u t) (place t us) n (place-task_at t us) h

-- The encoding that knows the tasks of a book, each by its place.
unfoldable pub unmarshal_from : List Task → List ℕ → Option Task
unmarshal_from book [] = none
unmarshal_from book (n ∷ b) = task_at book n

abbrev pub coded : Option ℕ → Option (List ℕ)
coded none = none
coded (some n) = some (n ∷ [])

pub coded-unmarshal_from :
    (book : List Task) (t : Task) (place_of : Option ℕ) (b : List ℕ)
    → ((n : ℕ) → place_of ≡ some n → task_at book n ≡ some t)
    → coded place_of ≡ some b
    → unmarshal_from book b ≡ some t
unfolding unmarshal_from
coded-unmarshal_from book t none b finds h = absurd (ground (arith, h))
coded-unmarshal_from book t (some n) b finds h =
    subst (λ c. unmarshal_from book c ≡ some t) (some-injective _ _ h) (finds n refl)

abbrev pub book_codec : List Task → TaskCodec
book_codec book = record {
  marshal = λ t. coded (place t book);
  unmarshal = unmarshal_from book;
  round_trip = λ t b h. coded-unmarshal_from book t (place t book) b (place-task_at t book) h;
}
