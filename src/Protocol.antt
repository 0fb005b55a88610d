-- ===== src/Protocol.antt =====
-- include/ocean/ipc_proto.h: the result codes of the servers, and what a handler answers.
use ocean_linux.Base.{ℕ, Bool, leb, ◌^◌}

abbrev pub e_ok : ℕ
e_ok = 0

abbrev pub e_inval : ℕ
e_inval = 1

abbrev pub e_nomem : ℕ
e_nomem = 2

abbrev pub e_noent : ℕ
e_noent = 3

abbrev pub e_perm : ℕ
e_perm = 5

abbrev pub e_exist : ℕ
e_exist = 9

-- A result code other than E_OK, or E_OK with the value that the handler stores through its out
-- pointer.
pub data Reply : Type 0 where
  error : ℕ → Reply
  value : ℕ → Reply

-- A number of 32 bits that stands for a negative int.
abbrev pub negative : ℕ → Bool
negative n = leb (2 ^ 31) n
