-- ===== src/Sql/Channels.antt =====
-- The wake channels of gorm_workqueue and postgres_workqueue: the map from queues to channels.
use workqueue_modules.Prelude.{
  ℕ, suc, ◌≤◌, ◌<◌, ◌≡◌, ◌≢◌, inl, inr, refl, sym, String, Bool, true, false, some, List, [], ◌∷◌,
  str_eq, if_intro, arith, lookup, insert, Bool-cases,
}

-- No queue waits on the channel.
abbrev pub Apart : ℕ → List (String × ℕ) → Type 0
Apart c [] = ◌≡◌ {A = Bool} true true
Apart c ((_, ch) ∷ entries) = (c ≢ ch) × Apart c entries

-- The channels of the queues are below the bound, open, and different from one another.
abbrev pub IsLive : ℕ → (ℕ → Bool) → List (String × ℕ) → Type 0
IsLive n closed [] = ◌≡◌ {A = Bool} true true
IsLive n closed ((_, ch) ∷ entries) =
    (ch < n) × (closed ch ≡ false) × Apart ch entries × IsLive n closed entries

pub lookup-Apart :
    (entries : List (String × ℕ)) (c : ℕ) (name : String)
    → Apart c entries
    → lookup name entries ≢ some c
unfolding lookup
lookup-Apart [] c name a e = absurd (ground arith)
lookup-Apart ((other, ch) ∷ entries) c name (apart, rest) e =
    elim (Bool-cases (str_eq other name)) [
      | inl t ↦ apart (ground arith)
      | inr t ↦ lookup-Apart entries c name rest (ground arith)
    ]

module _ (n : ℕ) (closed : ℕ → Bool) where
  -- A channel that has not been made is no queue's.
  pub fresh-Apart :
      (entries : List (String × ℕ)) (c : ℕ) → n ≤ c → IsLive n closed entries → Apart c entries
  fresh-Apart [] c h v = refl
  fresh-Apart ((_, ch) ∷ entries) c h (made, _, _, rest) =
      (λ e. absurd (omega arith), fresh-Apart entries c h rest)

  pub lookup-IsLive :
      (entries : List (String × ℕ)) (name : String) (ch : ℕ)
      → IsLive n closed entries
      → lookup name entries ≡ some ch
      → closed ch ≡ false
  unfolding lookup
  lookup-IsLive [] name ch v e = absurd (ground arith)
  lookup-IsLive ((other, c) ∷ entries) name ch (_, opened, _, rest) e =
      elim (Bool-cases (str_eq other name)) [
        | inl t ↦ ground arith
        | inr t ↦ lookup-IsLive entries name ch rest (ground arith)
      ]

  -- Channels stay live when others are made and closed.
  pub IsLive-keeps :
      (entries : List (String × ℕ)) (n' : ℕ) (closed' : ℕ → Bool) (ch : ℕ)
      → n ≤ n'
      → ((c : ℕ) → closed c ≡ false → c ≢ ch → closed' c ≡ false)
      → Apart ch entries
      → IsLive n closed entries
      → IsLive n' closed' entries
  IsLive-keeps [] n' closed' ch le keeps a v = refl
  IsLive-keeps ((_, c) ∷ entries) n' closed' ch le keeps (apart, others) (made, opened, a, rest) = (
    omega arith,
    keeps c opened (λ e. apart (sym e)),
    a,
    IsLive-keeps entries n' closed' ch le keeps others rest,
  )

insert-Apart :
    (entries : List (String × ℕ)) (name : String) (c n : ℕ)
    → c ≢ n
    → Apart c entries
    → Apart c (insert name n entries)
unfolding insert
insert-Apart [] name c n h a = (h, refl)
insert-Apart ((other, ch) ∷ entries) name c n h (apart, rest) =
    if_intro (Apart c) (str_eq other name) (λ t. (h, rest))
      (λ t. (apart, insert-Apart entries name c n h rest))

-- The write of a broadcast: a queue gets a new channel, and its old one, if any, is closed.
pub insert-IsLive :
    (entries : List (String × ℕ)) (name : String) (n : ℕ) (closed closed' : ℕ → Bool)
    → closed' n ≡ false
    → ((c : ℕ) → closed c ≡ false → lookup name entries ≢ some c → closed' c ≡ false)
    → IsLive n closed entries
    → IsLive (suc n) closed' (insert name n entries)
unfolding insert lookup
insert-IsLive [] name n closed closed' unmade keeps v = (omega arith, unmade, refl, refl)
insert-IsLive ((other, ch) ∷ entries) name n closed closed' unmade keeps (made, opened, a, rest) =
    if_intro (IsLive (suc n) closed') (str_eq other name)
      (λ t. (
        omega arith,
        unmade,
        fresh-Apart n closed entries n (omega arith) rest,
        IsLive-keeps n closed entries (suc n) closed' ch (omega arith)
            (λ c o d. keeps c o (λ e. d (ground arith))) a rest,
      ))
      (λ t. (
        omega arith,
        keeps ch opened (λ e. lookup-Apart entries ch name a (ground arith)),
        insert-Apart entries name ch n (omega arith) a,
        insert-IsLive entries name n closed closed' unmade
            (λ c o d. keeps c o (λ e. d (ground arith))) rest,
      ))
