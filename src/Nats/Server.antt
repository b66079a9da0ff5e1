-- ===== src/Nats/Server.antt =====
-- A JetStream server in memory, on which the behaviour of the backend is evaluated: each call
-- succeeds, and a stream remembers every identifier.
use text.Mathlib.TextEquality.{eq_iff}
use text.Mathlib.TextPositions.{eq_refl}
use mathlib.Core.List.{mem-append_left}
use mathlib.Core.Option.{some-injective}
use workqueue_modules.Prelude.{
  ℕ, suc, ◌^◌, ◌≤◌, ◌<◌, ◌≡◌, ◌≢◌, ◌⊎◌, refl, sym, ap, subst, ◌∙◌, inl, inr, String, str_eq, Bool,
  Bool-cases, true, if_intro, false, Option, some, none, List, [], ◌∷◌, ◌++◌, Mem, arith, length,
  if◌then◌else◌, ltb, ltb→lt, ◌||◌,
}
use workqueue_modules.Nats.Broker.{
  Entry, Fetched, Deleted, deleted, no_message, StreamConfig, Msg, Reply, ack, term, nak_with_delay,
  found, not_found, fetch_failed, without_seq,
}
use workqueue_modules.Nats.Log.{
  Log, number, erase, number-append, number-low, number-high, number-erase,
}

-- The stream of each subject, and the log and the identifiers of each stream.
pub record Memory : Type 0 where
  pub owner : String → Option String
  pub logs : String → Log
  pub ids : String → List String

abbrev pub empty_server : Memory
empty_server = record { owner = λ _. none; logs = λ _. []; ids = λ _. [] }

unfoldable pub set : {A : Type 0} → String → A → (String → A) → String → A
set key value f k = if str_eq k key then value else f k

unfoldable pub has : String → List String → Bool
has id [] = false
has id (x ∷ xs) = str_eq x id || has id xs

pub set_same :
    {A : Type 0} (key : String) (value : A) (f : String → A) → set key value f key ≡ value
unfolding set
set_same key value f = rw (eq_refl key) refl

pub set_other :
    {A : Type 0} (key k : String) (value : A) (f : String → A) → k ≢ key → set key value f k ≡ f k
unfolding set
set_other key k value f apart = elim (Bool-cases (str_eq k key)) [
  | inl t ↦ absurd (apart ((eq_iff k key).0 t))
  | inr f' ↦ rw f' refl
]

abbrev pub entries : Memory → String → List Entry
entries s name = number 1 (s.logs name)

abbrev pub ensure : Memory → StreamConfig → Memory × Bool
ensure s c = (record s { owner = set c.subject (some c.name) s.owner }, true)

abbrev pub append : Memory → String → List ℕ → Memory
append s name body = record s { logs = set name (s.logs name ++ some body ∷ []) s.logs }

-- A publish to a stream.
abbrev pub publish_to : Memory → String → List ℕ → Option String → Memory
publish_to s name body none = append s name body
publish_to s name body (some id) =
    if has id (s.ids name)
    then s
    else append (record s { ids = set name (id ∷ s.ids name) s.ids }) name body

abbrev pub publish_on : Memory → Option String → List ℕ → Option String → Memory × Bool
publish_on s none body id = (s, false)
publish_on s (some name) body id = (publish_to s name body id, true)

abbrev pub take_out : Memory → String → ℕ → Memory
take_out s name k = record s { logs = set name (erase k 1 (s.logs name)) s.logs }

abbrev pub answer : Memory → Msg → Reply → Memory × Bool
answer s m ack = (take_out s m.stream m.entry.seq, true)
answer s m term = (take_out s m.stream m.entry.seq, true)
answer s m (nak_with_delay d) = (s, true)

abbrev pub delete_at : Memory → String → ℕ → Fetched → Memory × Deleted
delete_at s name k (found b) = (take_out s name k, deleted)
delete_at s name k not_found = (s, no_message)
delete_at s name k fetch_failed = (s, no_message)

abbrev pub bounds : Memory → String → Option (ℕ × ℕ)
bounds s name = if ltb (length (s.logs name)) (2 ^ 64) then some (1, length (s.logs name)) else none

-- What a write to one log leaves.
logged :
    (s : Memory) (key name : String) (l : Log)
    → key ≢ name
    → number 1 (set key l s.logs name) ≡ entries s name
logged s key name l apart = ap (number 1) (set_other key name l s.logs (λ e. apart (sym e)))

appended :
    (s : Memory) (name : String) (body : List ℕ)
    → entries (append s name body) name
      ≡ entries s name ++ record { seq = suc (length (s.logs name)); body = body } ∷ []
appended s name body =
    ap (number 1) (set_same name (s.logs name ++ some body ∷ []) s.logs)
    ∙ number-append 1 (s.logs name) body
    ∙ ap (λ k. entries s name ++ record { seq = k; body = body } ∷ []) (omega arith)

taken_out :
    (s : Memory) (name : String) (k : ℕ)
    → entries (take_out s name k) name ≡ without_seq k (entries s name)
taken_out s name k =
    ap (number 1) (set_same name (erase k 1 (s.logs name)) s.logs) ∙ number-erase k 1 (s.logs name)

key_apart : {name key : String} → str_eq name key ≡ false → key ≢ name
key_apart {name} {key} f p = absurd (let t = (eq_iff name key).1 (sym p) in ground (arith, t, f))

append-keeps :
    (s : Memory) (key name : String) (body : List ℕ) (e : Entry)
    → Mem e (entries s name)
    → Mem e (entries (append s key body) name)
append-keeps s key name body e m = elim (Bool-cases (str_eq name key)) [
  | inl t ↦
      let same : name ≡ key = (eq_iff name key).0 t in
      subst (λ n. Mem e (entries (append s key body) n)) (sym same)
        (subst (Mem e) (sym (appended s key body))
          (mem-append_left _ (subst (λ n. Mem e (entries s n)) same m)))
  | inr f ↦
      subst (Mem e) (sym (logged s key name (s.logs key ++ some body ∷ []) (λ p. key_apart f p))) m
]

publish_to-keeps :
    (s : Memory) (key name : String) (body : List ℕ) (id : Option String) (e : Entry)
    → Mem e (entries s name)
    → Mem e (entries (publish_to s key body id) name)
publish_to-keeps s key name body none e m = append-keeps s key name body e m
publish_to-keeps s key name body (some id) e m =
    if_intro (λ x. Mem e (entries x name)) (has id (s.ids key)) (λ _. m)
      (λ _. append-keeps (record s { ids = set key (id ∷ s.ids key) s.ids }) key name body e m)

pub publish_on-keeps :
    (s : Memory) (key : Option String) (name : String) (body : List ℕ) (id : Option String)
    (e : Entry)
    → Mem e (entries s name)
    → Mem e (entries (publish_on s key body id).0 name)
publish_on-keeps s none name body id e m = m
publish_on-keeps s (some key) name body id e m = publish_to-keeps s key name body id e m

pub publish_to-appends :
    (s : Memory) (name : String) (body : List ℕ) (id : Option String)
    → ((i : String) → id ≡ some i → has i (s.ids name) ≡ false)
    → entries (publish_to s name body id) name
      ≡ entries s name ++ record { seq = suc (length (s.logs name)); body = body } ∷ []
publish_to-appends s name body none fresh = appended s name body
publish_to-appends s name body (some id) fresh =
    rw (fresh id refl) (appended (record s { ids = set name (id ∷ s.ids name) s.ids }) name body)

pub publish_to-elsewhere :
    (s : Memory) (name other : String) (body : List ℕ) (id : Option String)
    → name ≢ other
    → entries (publish_to s name body id) other ≡ entries s other
publish_to-elsewhere s name other body none apart =
    logged s name other (s.logs name ++ some body ∷ []) apart
publish_to-elsewhere s name other body (some id) apart =
    if_intro (λ x. entries x other ≡ entries s other) (has id (s.ids name)) (λ _. refl)
      (λ _. logged s name other (s.logs name ++ some body ∷ []) apart)

pub answer_takes :
    (s : Memory) (m : Msg) (r : Reply)
    → (entries (answer s m r).0 m.stream ≡ entries s m.stream)
      ⊎ (entries (answer s m r).0 m.stream ≡ without_seq m.entry.seq (entries s m.stream))
answer_takes s m ack = inr (taken_out s m.stream m.entry.seq)
answer_takes s m term = inr (taken_out s m.stream m.entry.seq)
answer_takes s m (nak_with_delay d) = inl refl

pub answer_elsewhere :
    (s : Memory) (m : Msg) (r : Reply) (name : String)
    → m.stream ≢ name
    → entries (answer s m r).0 name ≡ entries s name
answer_elsewhere s m ack name apart =
    logged s m.stream name (erase m.entry.seq 1 (s.logs m.stream)) apart
answer_elsewhere s m term name apart =
    logged s m.stream name (erase m.entry.seq 1 (s.logs m.stream)) apart
answer_elsewhere s m (nak_with_delay d) name apart = refl

pub delete_at-takes :
    (s : Memory) (name : String) (k : ℕ) (f : Fetched)
    → (delete_at s name k f).1 ≡ deleted
    → entries (delete_at s name k f).0 name ≡ without_seq k (entries s name)
delete_at-takes s name k (found b) h = taken_out s name k
delete_at-takes s name k not_found h = absurd (ground (arith, h))
delete_at-takes s name k fetch_failed h = absurd (ground (arith, h))

pub delete_at-misses :
    (s : Memory) (name : String) (k : ℕ) (f : Fetched)
    → (delete_at s name k f).1 ≡ no_message
    → entries (delete_at s name k f).0 name ≡ entries s name
delete_at-misses s name k (found b) h = absurd (ground (arith, h))
delete_at-misses s name k not_found h = refl
delete_at-misses s name k fetch_failed h = refl

pub delete_at-elsewhere :
    (s : Memory) (name other : String) (k : ℕ) (f : Fetched)
    → name ≢ other
    → entries (delete_at s name k f).0 other ≡ entries s other
delete_at-elsewhere s name other k (found b) apart =
    logged s name other (erase k 1 (s.logs name)) apart
delete_at-elsewhere s name other k not_found apart = refl
delete_at-elsewhere s name other k fetch_failed apart = refl

pub bounds_lem :
    (s : Memory) (name : String) (first last : ℕ)
    → bounds s name ≡ some (first, last)
    → (last < 2 ^ 64)
      × ((e : Entry) → Mem e (entries s name) → (0 < first) × (first ≤ e.seq) × (e.seq ≤ last))
bounds_lem s name first last h = elim (Bool-cases (ltb (length (s.logs name)) (2 ^ 64))) [
  | inr f ↦
      absurd
        (let h' : Path (Option (ℕ × ℕ)) none (some (first, last)) = rw f at h in ground (arith, h'))
  | inl t ↦
      let h' : Path (Option (ℕ × ℕ)) (some (1, length (s.logs name))) (some (first, last)) =
        rw t at h in
      let p = some-injective _ _ h' in
      let starts : 1 ≡ first = ap (λ x. x.0) p in
      let ends : length (s.logs name) ≡ last = ap (λ x. x.1) p in
      let small = ltb→lt (length (s.logs name)) (2 ^ 64) t in
      (
        omega (arith, ends, small),
        λ e m. (
          omega (arith, starts),
          omega (arith, starts, number-low 1 (s.logs name) e m),
          omega (arith, ends, number-high 1 (s.logs name) e m),
        ),
      )
]

-- A publish on a subject that a stream owns.
pub published :
    (P : Memory → Type 0) (s : Memory) (subject name : String) (body : List ℕ) (id : Option String)
    → s.owner subject ≡ some name
    → P (publish_to s name body id)
    → P (publish_on s (s.owner subject) body id).0
published P s subject name body id owns p = subst (λ o. P (publish_on s o body id).0) (sym owns) p

pub publish_to-duplicate :
    (s : Memory) (name : String) (body : List ℕ) (i : String)
    → has i (s.ids name) ≡ true
    → entries (publish_to s name body (some i)) name ≡ entries s name
publish_to-duplicate s name body i duplicate = rw duplicate refl
