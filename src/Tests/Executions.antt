-- ===== src/Tests/Executions.antt =====
-- The execution of a statement at a concrete input.
use libattachsql.Prelude.{
  ℕ, ◌≡◌, refl, arith, true, some, none, List, [], ◌∷◌, ◌++◌, ◌==◌, if◌then◌else◌, inl,
}
use libattachsql.Prelude.Memory.{Mem, read, copy}
use libattachsql.Pack.Ints.{byte}
use libattachsql.Net.Connect.{Connect, new_stmt}
use libattachsql.Command.Send.{packet_header_of}
use libattachsql.Statement.Types.{
  new_param, type_long, type_string, int_data, string_data, StmtParam,
}
use libattachsql.Statement.Run.{Answers, Executed, stmt_execute}
use libattachsql.Statement.PackLaws.{long, string}
use libattachsql.Statement.Laid.{Params, no_params, param}
use libattachsql.Statement.Pack.{Exec, check_buffer_size, exec_moved, new_exec_size}
use libattachsql.Statement.ExecuteLaws.{protocol_packet, stmt_execute_lem}
use libattachsql.Tests.Handlers.{platform, unset, waiting}

-- "AB" at 100.
abbrev text : Mem
text a = if a == 100 then 65 else if a == 101 then 66 else 0

abbrev answers : Answers
answers = record { write_failure = none; realloc = λ n. some 8192; stmt_made = true; unset = unset }

abbrev two_values : List StmtParam
two_values =
    record new_param { param_type = type_long; param_value = int_data 5; is_unsigned = true }
    ∷ record new_param { param_type = type_string; param_value = string_data 100; param_length = 2 }
    ∷ []

abbrev prepared : Connect
prepared = record waiting {
  has_stmt = true;
  stmt = record (new_stmt unset) {
    id = 7;
    param_count = 2;
    param_data = two_values;
    exec_buffer = 0;
    exec_buffer_length = 0;
  };
}

-- The buffer of the first execution.
abbrev first_exec : Exec
first_exec = record { memory = copy text 8192 0 0; exec_buffer = 8192; exec_buffer_length = 16384 }

-- The values on the wire.
abbrev values : List ℕ
values = 5 ∷ 0 ∷ 0 ∷ 0 ∷ 2 ∷ 65 ∷ 66 ∷ []

values-Params : Params first_exec.memory 8192 16384 two_values values
unfolding read byte new_exec_size
values-Params = param refl long (param refl (string (inl (omega arith))) no_params)

stmt_execute_lem_example :
    (r : Executed) × (stmt_execute platform answers text prepared ≡ some r)
    × (r.done ≡ true)
    × (r.bytes ≡ packet_header_of 23 ++ (0x17 ∷ protocol_packet 7 two_values values))
unfolding check_buffer_size exec_moved new_exec_size
stmt_execute_lem_example =
    stmt_execute_lem platform answers text prepared values first_exec refl refl refl (ground arith)
      refl (omega arith) values-Params (omega arith)

-- The packet, byte for byte.
packet_runs :
    protocol_packet 7 two_values values
    ≡ 7 ∷ 0 ∷ 0 ∷ 0 ∷ 0 ∷ 1 ∷ 0 ∷ 0 ∷ 0 ∷ 0 ∷ 1 ∷ 3 ∷ 128 ∷ 254 ∷ 0 ∷ 5 ∷ 0 ∷ 0 ∷ 0 ∷ 2 ∷ 65 ∷ 66
      ∷ []
unfolding byte
packet_runs = refl
