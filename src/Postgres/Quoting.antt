-- ===== src/Postgres/Quoting.antt =====
-- postgres_workqueue/workqueue.go: quotedTable, the table's name in the raw SQL of the claim. A text is
-- its list of code points.
use Prim.Native.Char.{code}
use workqueue_modules.Prelude.{ℕ, String, List, [], ◌∷◌, ◌++◌, ◌==◌, if◌then◌else◌}
use workqueue_modules.Postgres.State.{Config}

abbrev quote : ℕ
quote = 34

abbrev pub codes : String → List ℕ
codes String.[] = []
codes (String.◌∷◌ c s) = code c ∷ codes s

-- `strings.ReplaceAll(s, "\"", "\"\"")`
unfoldable pub doubled : List ℕ → List ℕ
doubled [] = []
doubled (c ∷ cs) = let rest = doubled cs in if c == quote then quote ∷ quote ∷ rest else c ∷ rest

unfoldable pub quoted : List ℕ → List ℕ
quoted name = quote ∷ (doubled name ++ (quote ∷ []))

unfoldable pub quoted_table : Config → List ℕ
unfolding quoted
quoted_table config = quoted (codes config.table_name)
