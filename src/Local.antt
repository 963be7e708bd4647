-- ===== src/Local.antt =====
-- The reader of the fifo in graftcp-local/local.go: what UpdateProcessAddrInfo makes of one line.
pub mod Lines
pub mod Pids
pub mod Numbers
pub mod Relay
pub mod Inode
pub mod Settings
pub mod HttpProxy
pub mod MutexMap
pub mod Tunnel
use graftcp.Prelude.{
  ℕ, ◌-◌, Bytes, true, false, Option, none, some, List, [], ◌∷◌, ◌++◌, ltb, ◌==◌, if◌then◌else◌,
  take, length, get_or,
}

-- strings.Split: the pieces between the separators, with what is read of the first one.
unfoldable pub pieces : ℕ → Bytes → Bytes → List Bytes
pieces c piece [] = piece ∷ []
pieces c piece (x ∷ s) =
    let rest = pieces c [] s in
    let longer = pieces c (piece ++ x ∷ []) s in if x == c then piece ∷ rest else longer

-- r.ReadLine: the bytes in front of the newline. (It drops a carriage return there too, and cuts a
-- line that is longer than its buffer.)
unfoldable pub read_line : Bytes → Bytes
read_line [] = []
read_line (x ∷ s) = let rest = read_line s in if x == b'\n' then [] else x ∷ rest

-- copyLine[:len(copyLine)-2-len(pid)-len(destPort)] in brackets, and the port.
unfoldable pub ipv6 : Bytes → Bytes → Bytes → Option (Bytes × Bytes)
ipv6 line pid dest_port =
    let dest_ip = take (length line - 2 - length pid - length dest_port) line in
    some (pid, b'[' ∷ dest_ip ++ (b']' ∷ b':' ∷ dest_port))

-- The body of the loop: the pid and the address that go to StorePidAddr, `none` for a line that is
-- passed over.
unfoldable pub parse_line : Bytes → Option (Bytes × Bytes)
unfolding ipv6
parse_line line =
    let s = pieces b':' [] line in
    let n = length s in
    if ltb n 3
    then none
    else if ltb 3 n
    then ipv6 line (get_or s (n - 1) []) (get_or s (n - 2) [])
    else some (get_or s 2 [], get_or s 0 [] ++ b':' ∷ get_or s 1 [])
