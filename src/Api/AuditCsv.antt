-- ===== src/Api/AuditCsv.antt =====
-- The export of the audit log (adminAuditCSV of backend/internal/api/admin.go), against a reader of
-- CSV as RFC 4180 has it.
use kalki_chat.Base.{
  ℕ, zero, suc, length, ◌≡◌, ◌≢◌, ◌∙◌, refl, ap, false, Option, none, some, List, [], ◌∷◌, ◌++◌,
  ◌==◌, arith, if◌then◌else◌, All, Text, lit,
}
use mathlib.Core.Option

-- A row of the query.
pub record CsvRow : Type 0 where
  pub id : ℕ
  pub actor_kind : Text
  pub actor_id : Text
  pub action : Text
  pub target_kind : Option Text
  pub target_id : Option Text
  pub ip : Option Text
  pub user_agent : Option Text
  pub metadata : Option Text
  pub created_at : ℕ

-- The verbs %d and %q of fmt, and time.RFC3339Nano.
pub record Verbs : Type 0 where
  pub decimal : ℕ → Text
  pub quote : Text → Text
  pub format_time : ℕ → Text

-- `strOr`
abbrev pub str_or : Option Text → Text
str_or none = []
str_or (some s) = s

abbrev pub csv_header : Text
csv_header =
    lit "id,actor_kind,actor_id,action,target_kind,target_id,ip,user_agent,metadata,created_at"
    ++ 10 ∷ []

-- The quoted columns.
abbrev pub text_columns : CsvRow → List Text
text_columns r =
    r.actor_kind
    ∷ r.actor_id
    ∷ r.action
    ∷ str_or r.target_kind
    ∷ str_or r.target_id
    ∷ str_or r.ip
    ∷ str_or r.user_agent
    ∷ str_or r.metadata
    ∷ []

abbrev pub comma : ℕ
comma = b','

abbrev pub quote_mark : ℕ
quote_mark = 34

abbrev pub backslash : ℕ
backslash = 92

-- Each column with the comma behind it, and then the last column.
unfoldable pub csv_columns : Verbs → List Text → Text → Text
csv_columns f [] last = last
csv_columns f (c ∷ cs) last = f.quote c ++ comma ∷ csv_columns f cs last

-- One `Fprintf`.
unfoldable pub csv_line : Verbs → CsvRow → Text
unfolding csv_columns
csv_line f r =
    f.decimal r.id ++ comma ∷ csv_columns f (text_columns r) (f.format_time r.created_at ++ 10 ∷ [])

-- The body of the answer.
unfoldable pub csv_rows : Verbs → List CsvRow → Text
csv_rows f [] = []
csv_rows f (r ∷ rs) = csv_line f r ++ csv_rows f rs

unfoldable pub csv_body : Verbs → List CsvRow → Text
csv_body f rs = csv_header ++ csv_rows f rs

-- The inside of a quoted field: it ends at a quote that is not doubled.
abbrev pub put_first : ℕ → Option (Text × Text) → Option (Text × Text)
put_first c none = none
put_first c (some (s, rest)) = some (c ∷ s, rest)

unfoldable pub read_inside : Text → Option (Text × Text)
read_inside [] = none
read_inside (c ∷ []) = if c == quote_mark then some ([], []) else none
read_inside (c ∷ d ∷ s) =
    let inner = read_inside (d ∷ s) in
    let behind = read_inside s in
    if c == quote_mark
    then if d == quote_mark then put_first quote_mark behind else some ([], d ∷ s)
    else put_first c inner

-- A column: a quoted field, and the comma behind it.
unfoldable pub read_column : Text → Option (Text × Text)
unfolding read_inside
read_column [] = none
read_column (c ∷ s) =
    if c == quote_mark
    then elim (read_inside s) [
      | none ↦ none
      | some p ↦ elim (p.1) [ [] ↦ none | d ∷ rest ↦ if d == comma then some (p.0, rest) else none ]
    ]
    else none

unfoldable pub read_columns : ℕ → Text → Option (List Text × Text)
read_columns zero s = some ([], s)
read_columns (suc n) s = elim (read_column s) [
  | none ↦ none
  | some p ↦ Option.map (λ q. (p.0 ∷ q.0, q.1)) (read_columns n (p.1))
]

-- A text that %q only puts into quotes.
abbrev pub IsPlain : Verbs → Text → Type 0
IsPlain f s = All (λ c. c ≢ quote_mark) s × (f.quote s ≡ quote_mark ∷ (s ++ quote_mark ∷ []))

inside-cons :
    (c : ℕ) (x : Text) → c ≢ quote_mark → read_inside (c ∷ x) ≡ put_first c (read_inside x)
unfolding read_inside
inside-cons c [] n = let b : (c == quote_mark) ≡ false = ground (arith, n) in rw b refl
inside-cons c (d ∷ s) n = let b : (c == quote_mark) ≡ false = ground (arith, n) in rw b refl

inside-stop :
    (d : ℕ) (w : Text) → d ≢ quote_mark → read_inside (quote_mark ∷ d ∷ w) ≡ some ([], d ∷ w)
unfolding read_inside
inside-stop d w n = let b : (d == quote_mark) ≡ false = ground (arith, n) in rw b refl

read_inside_plain :
    (s w : Text) (d : ℕ)
    → All (λ c. c ≢ quote_mark) s
    → d ≢ quote_mark
    → read_inside (s ++ quote_mark ∷ d ∷ w) ≡ some (s, d ∷ w)
read_inside_plain [] w d p n = inside-stop d w n
read_inside_plain (c ∷ s) w d p n =
    inside-cons c (s ++ quote_mark ∷ d ∷ w) p.0 ∙ ap (put_first c) (read_inside_plain s w d p.1 n)

assoc : (s t u : Text) → (s ++ t) ++ u ≡ s ++ (t ++ u)
assoc [] t u = refl
assoc (c ∷ s) t u = ap (λ x. c ∷ x) (assoc s t u)

column-done :
    (s w : Text) (x : Text)
    → read_inside x ≡ some (s, comma ∷ w)
    → read_column (quote_mark ∷ x) ≡ some (s, w)
unfolding read_column
column-done s w x h = rw h refl

column-refused :
    (s w : Text) (d : ℕ) (x : Text)
    → read_inside x ≡ some (s, d ∷ w)
    → d ≢ comma
    → read_column (quote_mark ∷ x) ≡ none
unfolding read_column
column-refused s w d x h n = let b : (d == comma) ≡ false = ground (arith, n) in rw (h, b) refl

read_column_plain :
    (f : Verbs) (s rest : Text)
    → IsPlain f s
    → read_column (f.quote s ++ comma ∷ rest) ≡ some (s, rest)
read_column_plain f s rest p =
    ap (λ x. read_column (x ++ comma ∷ rest)) p.1
    ∙ ap (λ x. read_column (quote_mark ∷ x)) (assoc s (quote_mark ∷ []) (comma ∷ rest))
    ∙ column-done s rest (s ++ quote_mark ∷ comma ∷ rest)
        (read_inside_plain s rest comma p.0 (λ e. omega arith))

-- The columns of a row are read back as they were, if all of them are plain.
pub read-csv_columns :
    (f : Verbs) (cs : List Text) (last : Text)
    → All (IsPlain f) cs
    → read_columns (length cs) (csv_columns f cs last) ≡ some (cs, last)
unfolding read_columns csv_columns
read-csv_columns f [] last p = refl
read-csv_columns f (c ∷ cs) last p =
    ground
      (arith, read_column_plain f c (csv_columns f cs last) p.0, read-csv_columns f cs last p.1)

read_inside_quoted :
    (s w : Text) (d : ℕ)
    → All (λ c. c ≢ quote_mark) s
    → d ≢ quote_mark
    → read_inside (s ++ backslash ∷ quote_mark ∷ d ∷ w) ≡ some (s ++ backslash ∷ [], d ∷ w)
read_inside_quoted [] w d p n =
    inside-cons backslash (quote_mark ∷ d ∷ w) (λ e. omega arith)
    ∙ ap (put_first backslash) (inside-stop d w n)
read_inside_quoted (c ∷ s) w d p n =
    inside-cons c (s ++ backslash ∷ quote_mark ∷ d ∷ w) p.0
    ∙ ap (put_first c) (read_inside_quoted s w d p.1 n)

-- A quote inside a text, which %q writes with a backslash, ends the field for the reader, and the row
-- is refused unless a comma follows: the metadata of a record are JSON, with quotes.
pub read_column_quoted :
    (f : Verbs) (s t rest : Text) (d : ℕ)
    → All (λ c. c ≢ quote_mark) s
    → f.quote (s ++ quote_mark ∷ d ∷ t) ≡ quote_mark ∷ (s ++ backslash ∷ quote_mark ∷ d ∷ rest)
    → d ≢ quote_mark
    → d ≢ comma
    → (u : Text) → read_column (f.quote (s ++ quote_mark ∷ d ∷ t) ++ u) ≡ none
read_column_quoted f s t rest d p q m n u =
    ap (λ x. read_column (x ++ u)) q
    ∙ ap (λ x. read_column (quote_mark ∷ x)) (assoc s (backslash ∷ quote_mark ∷ d ∷ rest) u)
    ∙ column-refused (s ++ backslash ∷ []) (rest ++ u) d
        (s ++ backslash ∷ quote_mark ∷ d ∷ (rest ++ u)) (read_inside_quoted s (rest ++ u) d p m) n
