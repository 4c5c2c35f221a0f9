-- ===== src/Handler/Output.antt =====
-- src/ProcessHandler.cpp: the output of a child, as it is read, stripped and given to a logger.
pub mod Strip
use scinit.Base.{
  ℕ, ℤ, zero, suc, ◌+◌, ◌-◌, ◌==◌, ltb, leb, if◌then◌else◌, Bool, true, false, ◌&&◌, Option, none,
  some, List, [], ◌∷◌, ◌++◌, Text, length, get_or, take, drop, lookup, nat_key, int_key, err, ok,
}
use scinit.Child.Types.{FdType, ChildProcess, lock}
use scinit.Handler.Types.{ProcessHandler, Result, out_of_range}

-- `std::string(buf)`: the buffer is filled with zeros behind the bytes that were read.
pub c_string : Text → Text
c_string [] = []
c_string (c ∷ s) = let rest = c_string s in if c == 0 then [] else c ∷ rest

-- `for (; begin < nchars; begin++) if (buf[begin] != '\n') break;`
pub find_begin : Text → ℕ
find_begin [] = 0
find_begin (c ∷ s) = let rest = find_begin s in if c == b'\n' then suc rest else 0

-- `for (; end > begin; end--) if (buf[end] != '\n') break;` with `stop` for `end + 1`, since `end`
-- is -1 if nothing was read.
pub find_stop : Text → (begin stop : ℕ) → ℕ
find_stop buf begin zero = 0
find_stop buf begin (suc end) =
    let rest = find_stop buf begin end in
    if ltb begin end && (get_or buf end 0 == b'\n') then rest else suc end

-- The text that is passed on, from the bytes that `read` put in the buffer.
unfoldable pub strip : Text → Text
unfolding c_string find_begin find_stop
strip buf =
    let begin = find_begin buf in
    let stop = find_stop buf begin (length buf) in
    let str = if ltb 0 begin then drop begin (c_string buf) else c_string buf in
    if ltb stop (length buf) && ltb begin stop then take (stop - begin) str else str

-- The text for the logger of the child with the given id.
log_output : (fd : ℤ) → Text → Option ChildProcess → ProcessHandler → ProcessHandler
log_output fd str none s = s
log_output fd str (some c) s = elim (lookup fd s.fd_type) [
  | none ↦ s
  | some type ↦ record s { output = s.output ++ (c.name, type, str) ∷ [] }
]

unfoldable pub handle_child_output : (fd : ℤ) → Text → ProcessHandler → Result ProcessHandler
unfolding log_output
handle_child_output fd str s = elim (lookup fd s.id_for_fd) [
  | none ↦ err out_of_range
  | some id ↦ elim (lookup id s.obj_for_id) [
    | none ↦ err out_of_range
    | some ref ↦ ok (log_output fd str (lock s.heap ref) s)
  ]
]
