-- ===== src/Scheduler/Logs.antt =====
-- `_line_at_offset` and `_log_position` of utils/scheduler_store.py. Files are an argument: a file
-- does not change while one operation reads it.
pub mod Lines
use Prim.Native.Nat.{min}
use comfy_ui_account_manager.Base.{
  ℕ, zero, suc, String, ◌+◌, ◌-◌, List, [], ◌∷◌, Option, none, some, str_eq, ltb, ◌==◌,
  if◌then◌else◌, ◌||◌, length, take, drop,
}
use comfy_ui_account_manager.Base.Dict.{Dict, lookup, insert}
use comfy_ui_account_manager.Base.Table.{count}

-- The file system that an operation sees: `os.path.abspath`, and the bytes of a file that can be
-- read (`none` stands for an OSError).
pub record Disk : Type 0 where
  pub abspath : String → String
  pub bytes : String → Option (List ℕ)

-- `_log_line_cache`: for a path, an offset and the number of newlines before it.
abbrev pub Cache : Type 0
Cache = Dict (ℕ × ℕ)

abbrev pub chunk_size : ℕ
chunk_size = 1048576

-- chunk.count(b"\n")
unfoldable pub newlines : List ℕ → ℕ
unfolding count
newlines = count (λ c. c == 10)

-- The `while remaining` loop, on the bytes behind the file's position. Each round reads a byte at
-- least, so `remaining` rounds are enough.
unfoldable pub read_on : ℕ → List ℕ → ℕ → ℕ → ℕ → ℕ × ℕ
unfolding newlines
read_on zero rest offset newline_count remaining = (offset, newline_count)
read_on (suc fuel) rest offset newline_count remaining =
    let chunk = take (min chunk_size remaining) rest in
    let next =
      read_on fuel (drop (length chunk) rest) (offset + length chunk)
        (newline_count + newlines chunk) (remaining - length chunk) in
    if remaining == 0 || length chunk == 0 then (offset, newline_count) else next

-- cached if the cached offset is not past the wanted one, else (0, 0)
unfoldable pub start_at : Cache → String → ℕ → ℕ × ℕ
unfolding lookup
start_at cache path offset = elim (lookup path cache) [
  | none ↦ (0, 0)
  | some (cached_offset, newline_count) ↦
      if ltb offset cached_offset then (0, 0) else (cached_offset, newline_count)
]

-- The line, and the cache after the call.
unfoldable pub line_at_offset : Disk → Cache → String → ℕ → ℕ × Cache
unfolding start_at read_on insert
line_at_offset disk cache path offset = elim (disk.bytes path) [
  | none ↦ (1, cache)
  | some bytes ↦
      let (cached_offset, newline_count) = start_at cache path offset in
      let remaining = offset - cached_offset in
      let found =
        read_on remaining (drop cached_offset bytes) cached_offset newline_count remaining in
      (found.1 + 1, insert path found cache)
]

pub record Position : Type 0 where
  pub path : Option String
  pub offset : Option ℕ
  pub line : Option ℕ

abbrev pub no_position : Position
no_position = record { path = none; offset = none; line = none }

unfoldable pub log_position : Disk → Cache → String → Position × Cache
unfolding line_at_offset
log_position disk cache log_file =
    let path = disk.abspath log_file in
    if str_eq log_file "" then (no_position, cache) else elim (disk.bytes path) [
      | none ↦ (record { path = some path; offset = some 0; line = some 1 }, cache)
      | some bytes ↦
          let (line, cache') = line_at_offset disk cache path (length bytes) in
          (record { path = some path; offset = some (length bytes); line = some line }, cache')
    ]
