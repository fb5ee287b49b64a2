-- ===== src/Cli.antt =====
-- src/main.c: how the command-line tool reads its input, and what its parts share. The calls of
-- <stdio.h> are a parameter.
pub mod Print
pub mod Walk
pub mod Commands
pub mod Main
pub mod Attempts
pub mod Grows
pub mod Loads
pub mod Exits
pub mod Serves
pub mod Compares
pub mod Requests
pub mod Contract
pub mod Reads
mod Tests
use bencode.Prelude.{
  ℕ, zero, suc, ◌+◌, ◌-◌, ◌/◌, ◌^◌, Bytes, Bool, true, false, not, Option, none, some, [], ◌∷◌,
  ◌++◌, ◌&&◌, ◌==◌, ltb, if◌then◌else◌, length, codes,
}
-- strcmp(a, b) == 0
use bencode.Prelude.Text.{same_text}
use bencode.Prelude.Int.{size_max}
use bencode.Prelude.Word.{mul64}
use bencode.Status.{Error, Result, ok, err, nomem, io}
use bencode.Exec.{Run, returned, out_of_bounds, out_of_fuel, Exec, pure, fail, lift, ◌>>=◌, ◌>>◌}
use bencode.Memory.{Memory, Heap, Grants, grants, alloc, free}

-- What the tool calls of the C library. `F` is `FILE *`, and `S` is the state of all files and
-- streams. `fopen` opens for "rb", `fread` gives the bytes that it put into the buffer, and the
-- formats of `fprintf` are expanded already. A result is false where the call reports an error.
pub record Platform (F S : Type 0) : Type 0 where
  pub malloc : Grants
  pub stdin : F
  pub stdout : F
  pub stderr : F
  pub fopen : Bytes → S → Option F × S
  pub fclose : F → S → S
  pub fread : F → ℕ → S → Bytes × S
  pub ferror : F → S → Bool
  pub fputc : ℕ → F → S → Bool × S
  pub fputs : Bytes → F → S → Bool × S
  pub fprintf : F → Bytes → S → Bool × S
  pub puts : Bytes → S → Bool × S
  pub fflush : F → S → Bool × S

-- The heap, and what else a call may change.
pub record World (S : Type 0) : Type 0 where
  pub memory : Memory
  pub outside : S

module _ {S : Type 0} where
  -- The world by its two parts.
  abbrev pub world : Memory → S → World S
  world m s = record { memory = m; outside = s }

  abbrev pub enclose : {A : Type 0} → S → Run Memory A → Run (World S) A
  enclose s (returned r m) = returned r (world m s)
  enclose s out_of_bounds = out_of_bounds
  enclose s out_of_fuel = out_of_fuel

  abbrev pub on_heap : {A : Type 0} → Exec Memory A → Exec (World S) A
  on_heap action w = enclose w.outside (action w.memory)

  -- An `int` that says failure is an error here; its code is never looked at.
  abbrev pub succeed : Memory → Bool × S → Run (World S) (Unit {0})
  succeed m (true, s) = returned (ok tt) (world m s)
  succeed m (false, s) = returned (err io) (world m s)

  abbrev pub call : (S → Bool × S) → Exec (World S) (Unit {0})
  call f w = succeed w.memory (f w.outside)

  -- A call whose result is dropped.
  abbrev pub call_void : (S → Bool × S) → Exec (World S) (Unit {0})
  call_void f w = returned (ok tt) (world w.memory (f w.outside).1)

  abbrev pub keep : {A : Type 0} → Run (World S) A → Run (World S) (Result A)
  keep (returned r w) = returned (ok r) w
  keep out_of_bounds = out_of_bounds
  keep out_of_fuel = out_of_fuel

  -- The result of a call as a value, for code that goes on in either case.
  abbrev pub attempt : {A : Type 0} → Exec (World S) A → Exec (World S) (Result A)
  attempt action w = keep (action w)

  -- for (size_t i = 0; i < n; ++i): the rounds left, and i.
  abbrev pub for_each : ℕ → ℕ → (ℕ → Exec (World S) (Unit {0})) → Exec (World S) (Unit {0})
  for_each zero i body = pure tt
  for_each (suc k) i body = body i >> for_each k (suc i) body

-- path == NULL || strcmp(path, "-") == 0
abbrev pub is_stdin : Option Bytes → Bool
is_stdin none = true
is_stdin (some path) = same_text path (codes "-")

-- The buffer is empty at most as often as its capacity can grow, and each other round of read_all
-- adds a byte to it.
abbrev pub read_fuel : ℕ
read_fuel = 2 ^ 64 + 1

module _ {F S : Type 0} (os : Platform F S) where
  -- The library without an allocator of the caller.
  abbrev pub libc : Heap
  libc = record { malloc = os.malloc; allocator = none }

  -- realloc of a pointer that is not NULL: whether the result is not NULL. The old block is gone
  -- only if it is.
  unfoldable pub realloc : ℕ → Exec Memory Bool
  realloc size m = pure (os.malloc m.requests size) (record m { requests = m.requests + 1 })

  -- The new capacity. On failure the buffer is freed.
  unfoldable pub grow_buf : ℕ → Exec Memory ℕ
  unfolding realloc free
  grow_buf cap = if ltb (size_max / 2) cap then free >> fail nomem else (do
    grown ← realloc (mul64 cap 2)
    if not grown then free >> fail nomem else pure (mul64 cap 2))

  abbrev pub fopen_path : Option Bytes → S → Option F × S
  fopen_path none s = (some os.stdin, s)
  fopen_path (some path) s = os.fopen path s

  unfoldable pub open_input : Option Bytes → S → Option F × S
  open_input path s = if is_stdin path then (some os.stdin, s) else fopen_path path s

  abbrev pub delivered : Memory → Bytes × S → Run (World S) Bytes
  delivered m (got, s) = returned (ok got) (world m s)

  abbrev pub fread_at_most : F → ℕ → Exec (World S) Bytes
  fread_at_most fp n w = delivered w.memory (os.fread fp n w.outside)

  -- if (ferror(fp)) { free(buf); buf = NULL; rc = 1; }
  unfoldable pub end_of_file : F → Bytes → Exec (World S) Bytes
  unfolding free
  end_of_file fp buf w = if os.ferror fp w.outside then (on_heap free >> fail io) w else pure buf w

  -- The loop of read_all: `len` is the length of `buf`, whose block has `cap` bytes.
  unfoldable pub read_loop : ℕ → F → Bytes → ℕ → Exec (World S) Bytes
  unfolding grow_buf end_of_file
  read_loop zero fp buf cap w = out_of_fuel
  read_loop (suc f) fp buf cap w =
      (do
        room ← if length buf == cap then on_heap (grow_buf cap) else pure cap
        got ← fread_at_most fp (room - length buf)
        if length got == 0 then end_of_file fp buf else read_loop f fp (buf ++ got) room)
        w

  -- From malloc to the end of the loop.
  unfoldable pub read_stream : F → Exec (World S) Bytes
  unfolding alloc read_loop
  read_stream fp = do
    granted ← on_heap (alloc libc 4096)
    if not granted then fail nomem else read_loop read_fuel fp [] 4096

  abbrev pub close_input : Bool → F → Exec (World S) (Unit {0})
  close_input from_stdin fp w =
      pure tt (if not from_stdin then world w.memory (os.fclose fp w.outside) else w)

  abbrev pub read_opened : Bool → Memory → Option F × S → Run (World S) Bytes
  read_opened from_stdin m (none, s) = returned (err io) (world m s)
  read_opened from_stdin m (some fp, s) =
      (do rc ← attempt (read_stream fp); close_input from_stdin fp; lift rc) (world m s)

  -- read_all: the content of the buffer, which the caller frees.
  unfoldable pub read_all : Option Bytes → Exec (World S) Bytes
  unfolding open_input read_stream
  read_all path w = read_opened (is_stdin path) w.memory (open_input path w.outside)
