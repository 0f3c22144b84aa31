-- ===== src/Statement/ParamLaws.antt =====
-- The setters keep the type of a parameter and the member of its union in step, so that executing a
-- statement reads no other member.
use libattachsql.Prelude.{
  ℕ, zero, suc, ◌+◌, ◌≡◌, refl, Bool, true, false, Option, none, some, List, [], ◌∷◌, leb,
  replicate, if◌then◌else◌, Bool-cases, inl, inr,
}
use libattachsql.Prelude.Memory.{Mem}
use libattachsql.Net.Connect.{Connect}
use libattachsql.Net.Response.{Platform}
use libattachsql.Statement.Types.{
  ColumnType, ParamData, int_data, bigint_data, float_data, double_data, string_data, datetime_data,
  StmtParam, new_param, type_decimal, type_tiny, type_short, type_long, type_float, type_double,
  type_null, type_timestamp, type_longlong, type_int24, type_date, type_time, type_datetime,
  type_year, type_varchar, type_bit, type_newdecimal, type_enum, type_set, type_tiny_blob,
  type_medium_blob, type_long_blob, type_blob, type_varstring, type_string, type_geometry,
  type_error, type_other,
}
use libattachsql.Statement.Params.{
  Given, update_at, put_param, set_checked, Setter, set_param, set_int, set_bigint,
  set_unsigned_int, set_unsigned_bigint, set_double, set_string, set_binary, set_null, set_datetime,
  set_time, setter, statement_set,
}
use libattachsql.Statement.Pack.{
  Exec, Realloc, Packed, packed, bad_type, no_memory, other_member, and_exec, put_string, put_value,
  is_null_param, pack_param, pack_params, pack_execute,
}
use libattachsql.Statement.Run.{Answers, Executed, after_packing, stmt_execute}

-- The member of the union that belongs to a type; NULL reads none.
pub data Member : ColumnType → ParamData → Type 0 where
  null : {v : ParamData} → Member type_null v
  long : {n : ℕ} → Member type_long (int_data n)
  longlong : {n : ℕ} → Member type_longlong (bigint_data n)
  float : {bs : List ℕ} → Member type_float (float_data bs)
  double : {bs : List ℕ} → Member type_double (double_data bs)
  string : {a : ℕ} → Member type_string (string_data a)
  blob : {a : ℕ} → Member type_blob (string_data a)
  datetime : {d : _} → Member type_datetime (datetime_data d)
  time : {d : _} → Member type_time (datetime_data d)

abbrev pub IsTagged : StmtParam → Type 0
IsTagged q = Member q.param_type q.param_value

pub data AllTagged : List StmtParam → Type 0 where
  no_more : AllTagged []
  tagged : {q : StmtParam} {qs : List StmtParam} → IsTagged q → AllTagged qs → AllTagged (q ∷ qs)

put_param-IsTagged :
    (t : ColumnType) (length : ℕ) (value : Given) (u : Bool) (q : StmtParam)
    → IsTagged q
    → IsTagged (put_param t length value u q)
unfolding put_param
put_param-IsTagged type_long length value u q h = long
put_param-IsTagged type_longlong length value u q h = longlong
put_param-IsTagged type_float length value u q h = float
put_param-IsTagged type_double length value u q h = double
put_param-IsTagged type_string length value u q h = string
put_param-IsTagged type_blob length value u q h = blob
put_param-IsTagged type_null length value u q h = null
put_param-IsTagged type_decimal length value u q h = h
put_param-IsTagged type_tiny length value u q h = h
put_param-IsTagged type_short length value u q h = h
put_param-IsTagged type_timestamp length value u q h = h
put_param-IsTagged type_int24 length value u q h = h
put_param-IsTagged type_date length value u q h = h
put_param-IsTagged type_time length value u q h = h
put_param-IsTagged type_datetime length value u q h = h
put_param-IsTagged type_year length value u q h = h
put_param-IsTagged type_varchar length value u q h = h
put_param-IsTagged type_bit length value u q h = h
put_param-IsTagged type_newdecimal length value u q h = h
put_param-IsTagged type_enum length value u q h = h
put_param-IsTagged type_set length value u q h = h
put_param-IsTagged type_tiny_blob length value u q h = h
put_param-IsTagged type_medium_blob length value u q h = h
put_param-IsTagged type_long_blob length value u q h = h
put_param-IsTagged type_varstring length value u q h = h
put_param-IsTagged type_geometry length value u q h = h
put_param-IsTagged type_error length value u q h = h
put_param-IsTagged (type_other n) length value u q h = h

setter-IsTagged : (s : Setter) (q : StmtParam) → IsTagged q → IsTagged (setter s q)
unfolding setter
setter-IsTagged (set_param t length value u) q h = put_param-IsTagged t length value u q h
setter-IsTagged (set_int z) q h = put_param-IsTagged type_long _ _ _ q h
setter-IsTagged (set_unsigned_int n) q h = put_param-IsTagged type_long _ _ _ q h
setter-IsTagged (set_bigint z) q h = put_param-IsTagged type_longlong _ _ _ q h
setter-IsTagged (set_unsigned_bigint n) q h = put_param-IsTagged type_longlong _ _ _ q h
setter-IsTagged (set_double d) q h = put_param-IsTagged type_double _ _ _ q h
setter-IsTagged (set_string length chars) q h = put_param-IsTagged type_string _ _ _ q h
setter-IsTagged (set_binary length chars) q h = put_param-IsTagged type_blob _ _ _ q h
setter-IsTagged set_null q h = put_param-IsTagged type_null _ _ _ q h
setter-IsTagged (set_datetime y mo d ho mi s us) q h = datetime
setter-IsTagged (set_time ho mi s us n) q h = time

update_at-AllTagged :
    (i : ℕ) (s : Setter) (qs : List StmtParam)
    → AllTagged qs
    → AllTagged (update_at i (setter s) qs)
update_at-AllTagged i s [] no_more = no_more
update_at-AllTagged zero s (q ∷ qs) (tagged h t) = tagged (setter-IsTagged s q h) t
update_at-AllTagged (suc i) s (q ∷ qs) (tagged h t) = tagged h (update_at-AllTagged i s qs t)

-- The connection after the setters that are called, each for a parameter; no error is asked for.
abbrev kept : Connect → Option Connect → Connect
kept c none = c
kept c (some c') = c'

abbrev pub set_all : List (ℕ × Setter) → Connect → Connect
set_all [] c = c
set_all ((param, s) ∷ calls) c =
    set_all calls (kept c (statement_set false s none (some c) param).con)

set-AllTagged :
    (s : Setter) (param : ℕ) (c : Connect)
    → AllTagged c.stmt.param_data
    → AllTagged (kept c (statement_set false s none (some c) param).con).stmt.param_data
unfolding statement_set set_checked
set-AllTagged s param c h = elim (Bool-cases c.has_stmt) [
  | inl k ↦ elim (Bool-cases (leb c.stmt.param_count param)) [
    | inl l ↦ rw (k, l) h
    | inr l ↦ rw (k, l) (update_at-AllTagged param s c.stmt.param_data h)
  ]
  | inr k ↦ rw k h
]

set_all-AllTagged :
    (calls : List (ℕ × Setter)) (c : Connect)
    → AllTagged c.stmt.param_data
    → AllTagged (set_all calls c).stmt.param_data
set_all-AllTagged [] c h = h
set_all-AllTagged ((param, s) ∷ calls) c h =
    set_all-AllTagged calls (kept c (statement_set false s none (some c) param).con)
      (set-AllTagged s param c h)

replicate-AllTagged : (n : ℕ) → AllTagged (replicate n new_param)
replicate-AllTagged zero = no_more
replicate-AllTagged (suc n) = tagged null (replicate-AllTagged n)

-- The packing read no other member.
abbrev IsRead : Packed → Type 0
IsRead other_member = ⊥
IsRead _ = Unit

abbrev Rests : (Exec → ℕ → Packed) → Type 0
Rests rest = (x : Exec) (used : ℕ) → IsRead (rest x used)

and_exec-IsRead :
    (x : Exec) (o : Option Exec) (rest : Exec → Packed)
    → ((y : Exec) → IsRead (rest y))
    → IsRead (and_exec x o rest)
and_exec-IsRead x none rest h = tt
and_exec-IsRead x (some y) rest h = h y

put_value-IsRead :
    (answers : Realloc) (x : Exec) (used : ℕ) (q : StmtParam) (rest : Exec → ℕ → Packed)
    {t : ColumnType} {v : ParamData}
    → Member t v
    → Rests rest
    → IsRead (put_value answers x used q t v rest)
unfolding put_value put_string
put_value-IsRead answers x used q rest null h = tt
put_value-IsRead answers x used q rest long h = h _ _
put_value-IsRead answers x used q rest longlong h = h _ _
put_value-IsRead answers x used q rest float h = h _ _
put_value-IsRead answers x used q rest double h = h _ _
put_value-IsRead answers x used q rest string h = and_exec-IsRead x _ _ (λ y. h _ _)
put_value-IsRead answers x used q rest blob h = and_exec-IsRead x _ _ (λ y. h _ _)
put_value-IsRead answers x used q rest datetime h = h _ _
put_value-IsRead answers x used q rest time h = h _ _

if-IsRead : (b : Bool) (p q : Packed) → IsRead p → IsRead q → IsRead (if b then p else q)
if-IsRead true p q h k = h
if-IsRead false p q h k = k

pack_params-IsRead :
    (answers : Realloc) (types : ℕ) (qs : List StmtParam) (param : ℕ) (x : Exec) (used : ℕ)
    → AllTagged qs
    → IsRead (pack_params answers types qs param x used)
unfolding pack_params pack_param
pack_params-IsRead answers types [] param x used no_more = tt
pack_params-IsRead answers types (q ∷ qs) param x used (tagged h t) =
    let later =
      λ (x' : Exec) (used' : ℕ). pack_params-IsRead answers types qs (param + 1) x' used' t in
    if-IsRead (is_null_param q) _ _ (later x used) (
      if-IsRead q.is_long_data _ _ (later _ _)
        (and_exec-IsRead _ _ _ (λ y. put_value-IsRead answers y used q _ h later)))

after_packing_done :
    (e : Platform) (a : Answers) (c : Connect) (p : Packed)
    → IsRead p
    → (r : Executed) × (after_packing e a c p ≡ some r)
unfolding after_packing
after_packing_done e a c (packed x used) h = (_, refl)
after_packing_done e a c (bad_type x) h = (_, refl)
after_packing_done e a c (no_memory x) h = (_, refl)
after_packing_done e a c other_member h = absurd h

-- From a prepared statement on, whose parameters are new, executing it after any calls of the
-- setters comes to an end, and reads no member of a parameter's union but the one that was stored
-- last.
pub set_all-stmt_execute :
    (e : Platform) (a : Answers) (m : Mem) (c : Connect) (n : ℕ) (calls : List (ℕ × Setter))
    → c.stmt.param_data ≡ replicate n new_param
    → (r : Executed) × (stmt_execute e a m (set_all calls c) ≡ some r)
unfolding stmt_execute pack_execute
set_all-stmt_execute e a m c n calls h =
    let all = set_all-AllTagged calls c (rw h (replicate-AllTagged n)) in
    after_packing_done e a (set_all calls c) _
      (and_exec-IsRead _ _ _ (λ y. pack_params-IsRead a.realloc _ _ 0 _ _ all))
