-- ===== src/Resp/Commands.antt =====
-- protocol/data/resp/cmd.h, the tables cmd_*.h, `command_table` and the limits that `request_setup`
-- sets. The type of a command is its place in the table, where 0 is REQ_UNKNOWN.
use pelikan.Common.{ℕ, ◌==◌, if◌then◌else◌, List, [], ◌∷◌, ◌++◌, Bool, false}
use mathlib.Core.List.{map}
use pelikan.Common.Memory.{Bytes}
use pelikan.Common.Int.{ℤ, pos, negsuc, ◌-ℤ◌}
use pelikan.Time.{to_i32}

-- `narg` counts the verb.
pub record Command : Type 0 where
  pub bstr : Bytes
  pub narg : ℤ
  pub nopt : ℤ

abbrev pub cmd_init : Bytes → ℤ → ℤ → Command
cmd_init bstr narg nopt = record { bstr = bstr; narg = narg; nopt = nopt }

-- OPT_VARIED, UINT32_MAX, in an `int32_t`.
abbrev pub opt_varied : ℤ
opt_varied = negsuc 0

-- `REQ_BITMAP`.
unfoldable pub req_bitmap : List Command
req_bitmap =
    cmd_init (66 ∷ 105 ∷ 116 ∷ 77 ∷ 97 ∷ 112 ∷ 46 ∷ 99 ∷ 114 ∷ 101 ∷ 97 ∷ 116 ∷ 101 ∷ []) (pos 3)
      (pos 0)
    ∷ cmd_init (66 ∷ 105 ∷ 116 ∷ 77 ∷ 97 ∷ 112 ∷ 46 ∷ 100 ∷ 101 ∷ 108 ∷ 101 ∷ 116 ∷ 101 ∷ [])
        (pos 2) (pos 0)
    ∷ cmd_init (66 ∷ 105 ∷ 116 ∷ 77 ∷ 97 ∷ 112 ∷ 46 ∷ 103 ∷ 101 ∷ 116 ∷ []) (pos 3) (pos 0)
    ∷ cmd_init (66 ∷ 105 ∷ 116 ∷ 77 ∷ 97 ∷ 112 ∷ 46 ∷ 115 ∷ 101 ∷ 116 ∷ []) (pos 4) (pos 0)
    ∷ []

-- `REQ_HASH`.
unfoldable pub req_hash : List Command
req_hash =
    cmd_init (104 ∷ 100 ∷ 101 ∷ 108 ∷ []) (pos 3) opt_varied
    ∷ cmd_init (104 ∷ 100 ∷ 101 ∷ 108 ∷ 97 ∷ 108 ∷ 108 ∷ []) (pos 2) (pos 0)
    ∷ cmd_init (104 ∷ 101 ∷ 120 ∷ 105 ∷ 115 ∷ 116 ∷ 115 ∷ []) (pos 3) (pos 0)
    ∷ cmd_init (104 ∷ 103 ∷ 101 ∷ 116 ∷ []) (pos 3) (pos 0)
    ∷ cmd_init (104 ∷ 103 ∷ 101 ∷ 116 ∷ 97 ∷ 108 ∷ 108 ∷ []) (pos 2) (pos 0)
    ∷ cmd_init (104 ∷ 105 ∷ 110 ∷ 99 ∷ 114 ∷ 98 ∷ 121 ∷ []) (pos 4) (pos 0)
    ∷ cmd_init (104 ∷ 105 ∷ 110 ∷ 99 ∷ 114 ∷ 98 ∷ 121 ∷ 102 ∷ 108 ∷ 111 ∷ 97 ∷ 116 ∷ []) (pos 4)
        (pos 0)
    ∷ cmd_init (104 ∷ 107 ∷ 101 ∷ 121 ∷ 115 ∷ []) (pos 2) (pos 0)
    ∷ cmd_init (104 ∷ 108 ∷ 101 ∷ 110 ∷ []) (pos 2) (pos 0)
    ∷ cmd_init (104 ∷ 109 ∷ 103 ∷ 101 ∷ 116 ∷ []) (pos 3) opt_varied
    ∷ cmd_init (104 ∷ 109 ∷ 115 ∷ 101 ∷ 116 ∷ []) (pos 4) opt_varied
    ∷ cmd_init (104 ∷ 115 ∷ 101 ∷ 116 ∷ []) (pos 4) (pos 0)
    ∷ cmd_init (104 ∷ 115 ∷ 101 ∷ 116 ∷ 110 ∷ 120 ∷ []) (pos 4) (pos 0)
    ∷ cmd_init (104 ∷ 115 ∷ 116 ∷ 114 ∷ 108 ∷ 101 ∷ 110 ∷ []) (pos 3) (pos 0)
    ∷ cmd_init (104 ∷ 118 ∷ 97 ∷ 108 ∷ 115 ∷ []) (pos 2) (pos 0)
    ∷ cmd_init (104 ∷ 115 ∷ 99 ∷ 97 ∷ 110 ∷ []) (pos 3) (pos 0)
    ∷ []

-- `REQ_LIST`.
unfoldable pub req_list : List Command
req_list =
    cmd_init (76 ∷ 105 ∷ 115 ∷ 116 ∷ 46 ∷ 99 ∷ 114 ∷ 101 ∷ 97 ∷ 116 ∷ 101 ∷ []) (pos 2) (pos 0)
    ∷ cmd_init (76 ∷ 105 ∷ 115 ∷ 116 ∷ 46 ∷ 100 ∷ 101 ∷ 108 ∷ 101 ∷ 116 ∷ 101 ∷ []) (pos 2) (pos 2)
    ∷ cmd_init (76 ∷ 105 ∷ 115 ∷ 116 ∷ 46 ∷ 108 ∷ 101 ∷ 110 ∷ []) (pos 2) (pos 0)
    ∷ cmd_init (76 ∷ 105 ∷ 115 ∷ 116 ∷ 46 ∷ 102 ∷ 105 ∷ 110 ∷ 100 ∷ []) (pos 3) (pos 0)
    ∷ cmd_init (76 ∷ 105 ∷ 115 ∷ 116 ∷ 46 ∷ 103 ∷ 101 ∷ 116 ∷ []) (pos 2) (pos 2)
    ∷ cmd_init (76 ∷ 105 ∷ 115 ∷ 116 ∷ 46 ∷ 105 ∷ 110 ∷ 115 ∷ 101 ∷ 114 ∷ 116 ∷ []) (pos 4) (pos 0)
    ∷ cmd_init (76 ∷ 105 ∷ 115 ∷ 116 ∷ 46 ∷ 112 ∷ 117 ∷ 115 ∷ 104 ∷ []) (pos 3) opt_varied
    ∷ cmd_init (76 ∷ 105 ∷ 115 ∷ 116 ∷ 46 ∷ 116 ∷ 114 ∷ 105 ∷ 109 ∷ []) (pos 4) (pos 0)
    ∷ []

-- `REQ_SARRAY`.
unfoldable pub req_sarray : List Command
req_sarray =
    cmd_init (83 ∷ 65 ∷ 114 ∷ 114 ∷ 97 ∷ 121 ∷ 46 ∷ 99 ∷ 114 ∷ 101 ∷ 97 ∷ 116 ∷ 101 ∷ []) (pos 3)
      (pos 2)
    ∷ cmd_init (83 ∷ 65 ∷ 114 ∷ 114 ∷ 97 ∷ 121 ∷ 46 ∷ 100 ∷ 101 ∷ 108 ∷ 101 ∷ 116 ∷ 101 ∷ [])
        (pos 2) (pos 0)
    ∷ cmd_init (83 ∷ 65 ∷ 114 ∷ 114 ∷ 97 ∷ 121 ∷ 46 ∷ 108 ∷ 101 ∷ 110 ∷ []) (pos 2) (pos 0)
    ∷ cmd_init (83 ∷ 65 ∷ 114 ∷ 114 ∷ 97 ∷ 121 ∷ 46 ∷ 102 ∷ 105 ∷ 110 ∷ 100 ∷ []) (pos 3) (pos 0)
    ∷ cmd_init (83 ∷ 65 ∷ 114 ∷ 114 ∷ 97 ∷ 121 ∷ 46 ∷ 103 ∷ 101 ∷ 116 ∷ []) (pos 2) (pos 2)
    ∷ cmd_init (83 ∷ 65 ∷ 114 ∷ 114 ∷ 97 ∷ 121 ∷ 46 ∷ 105 ∷ 110 ∷ 115 ∷ 101 ∷ 114 ∷ 116 ∷ [])
        (pos 3) opt_varied
    ∷ cmd_init (83 ∷ 65 ∷ 114 ∷ 114 ∷ 97 ∷ 121 ∷ 46 ∷ 114 ∷ 101 ∷ 109 ∷ 111 ∷ 118 ∷ 101 ∷ [])
        (pos 3) opt_varied
    ∷ cmd_init
        (83 ∷ 65 ∷ 114 ∷ 114 ∷ 97 ∷ 121 ∷ 46 ∷ 116 ∷ 114 ∷ 117 ∷ 110 ∷ 99 ∷ 97 ∷ 116 ∷ 101 ∷ [])
        (pos 3) (pos 0)
    ∷ []

-- `REQ_SMAP`.
unfoldable pub req_smap : List Command
req_smap =
    cmd_init (83 ∷ 77 ∷ 97 ∷ 112 ∷ 46 ∷ 99 ∷ 114 ∷ 101 ∷ 97 ∷ 116 ∷ 101 ∷ []) (pos 3) (pos 2)
    ∷ cmd_init (83 ∷ 77 ∷ 97 ∷ 112 ∷ 46 ∷ 100 ∷ 101 ∷ 108 ∷ 101 ∷ 116 ∷ 101 ∷ []) (pos 2) (pos 0)
    ∷ cmd_init (83 ∷ 77 ∷ 97 ∷ 112 ∷ 46 ∷ 108 ∷ 101 ∷ 110 ∷ []) (pos 2) (pos 0)
    ∷ cmd_init (83 ∷ 77 ∷ 97 ∷ 112 ∷ 46 ∷ 102 ∷ 105 ∷ 110 ∷ 100 ∷ []) (pos 3) (pos 0)
    ∷ cmd_init (83 ∷ 77 ∷ 97 ∷ 112 ∷ 46 ∷ 103 ∷ 101 ∷ 116 ∷ []) (pos 2) (pos 2)
    ∷ cmd_init (83 ∷ 77 ∷ 97 ∷ 112 ∷ 46 ∷ 105 ∷ 110 ∷ 115 ∷ 101 ∷ 114 ∷ 116 ∷ []) (pos 3) opt_varied
    ∷ cmd_init (83 ∷ 77 ∷ 97 ∷ 112 ∷ 46 ∷ 114 ∷ 101 ∷ 109 ∷ 111 ∷ 118 ∷ 101 ∷ []) (pos 3) opt_varied
    ∷ cmd_init (83 ∷ 77 ∷ 97 ∷ 112 ∷ 46 ∷ 116 ∷ 114 ∷ 117 ∷ 110 ∷ 99 ∷ 97 ∷ 116 ∷ 101 ∷ []) (pos 3)
        (pos 0)
    ∷ []

-- `REQ_ZSET`.
unfoldable pub req_zset : List Command
req_zset =
    cmd_init (122 ∷ 97 ∷ 100 ∷ 100 ∷ []) (pos 4) opt_varied
    ∷ cmd_init (122 ∷ 105 ∷ 110 ∷ 99 ∷ 114 ∷ 98 ∷ 121 ∷ []) (pos 4) (pos 0)
    ∷ cmd_init (122 ∷ 114 ∷ 101 ∷ 109 ∷ []) (pos 3) opt_varied
    ∷ cmd_init
        (122 ∷ 114 ∷ 101 ∷ 109 ∷ 114 ∷ 97 ∷ 110 ∷ 103 ∷ 101 ∷ 98 ∷ 121 ∷ 115 ∷ 99 ∷ 111 ∷ 114 ∷ 101
          ∷ [])
        (pos 4) (pos 0)
    ∷ cmd_init
        (122 ∷ 114 ∷ 101 ∷ 109 ∷ 114 ∷ 97 ∷ 110 ∷ 103 ∷ 101 ∷ 98 ∷ 121 ∷ 114 ∷ 97 ∷ 110 ∷ 107 ∷ [])
        (pos 4) (pos 0)
    ∷ cmd_init
        (122 ∷ 114 ∷ 101 ∷ 109 ∷ 114 ∷ 97 ∷ 110 ∷ 103 ∷ 101 ∷ 98 ∷ 121 ∷ 108 ∷ 101 ∷ 120 ∷ [])
        (pos 4) (pos 0)
    ∷ cmd_init (122 ∷ 117 ∷ 110 ∷ 105 ∷ 111 ∷ 110 ∷ 115 ∷ 116 ∷ 111 ∷ 114 ∷ 101 ∷ []) (pos 4)
        opt_varied
    ∷ cmd_init (122 ∷ 105 ∷ 110 ∷ 116 ∷ 101 ∷ 114 ∷ 115 ∷ 116 ∷ 111 ∷ 114 ∷ 101 ∷ []) (pos 4)
        opt_varied
    ∷ cmd_init (122 ∷ 114 ∷ 97 ∷ 110 ∷ 103 ∷ 101 ∷ []) (pos 4) opt_varied
    ∷ cmd_init (122 ∷ 114 ∷ 97 ∷ 110 ∷ 103 ∷ 101 ∷ 98 ∷ 121 ∷ 115 ∷ 99 ∷ 111 ∷ 114 ∷ 101 ∷ [])
        (pos 4) opt_varied
    ∷ cmd_init
        (122 ∷ 114 ∷ 101 ∷ 118 ∷ 114 ∷ 97 ∷ 110 ∷ 103 ∷ 101 ∷ 98 ∷ 121 ∷ 115 ∷ 99 ∷ 111 ∷ 114 ∷ 101
          ∷ [])
        (pos 4) opt_varied
    ∷ cmd_init (122 ∷ 114 ∷ 97 ∷ 110 ∷ 103 ∷ 101 ∷ 98 ∷ 121 ∷ 108 ∷ 101 ∷ 120 ∷ []) (pos 4)
        opt_varied
    ∷ cmd_init
        (122 ∷ 114 ∷ 101 ∷ 118 ∷ 114 ∷ 97 ∷ 110 ∷ 103 ∷ 101 ∷ 98 ∷ 121 ∷ 108 ∷ 101 ∷ 120 ∷ [])
        (pos 4) opt_varied
    ∷ cmd_init (122 ∷ 99 ∷ 111 ∷ 117 ∷ 110 ∷ 116 ∷ []) (pos 4) (pos 0)
    ∷ cmd_init (122 ∷ 108 ∷ 101 ∷ 120 ∷ 99 ∷ 111 ∷ 117 ∷ 110 ∷ 116 ∷ []) (pos 4) (pos 0)
    ∷ cmd_init (122 ∷ 114 ∷ 101 ∷ 118 ∷ 114 ∷ 97 ∷ 110 ∷ 103 ∷ 101 ∷ []) (pos 4) opt_varied
    ∷ cmd_init (122 ∷ 99 ∷ 97 ∷ 114 ∷ 100 ∷ []) (pos 2) (pos 0)
    ∷ cmd_init (122 ∷ 115 ∷ 99 ∷ 111 ∷ 114 ∷ 101 ∷ []) (pos 3) (pos 0)
    ∷ cmd_init (122 ∷ 114 ∷ 97 ∷ 110 ∷ 107 ∷ []) (pos 3) (pos 0)
    ∷ cmd_init (122 ∷ 114 ∷ 101 ∷ 118 ∷ 114 ∷ 97 ∷ 110 ∷ 107 ∷ []) (pos 3) (pos 0)
    ∷ cmd_init (122 ∷ 115 ∷ 99 ∷ 97 ∷ 110 ∷ []) (pos 3) opt_varied
    ∷ []

-- `REQ_MISC`.
unfoldable pub req_misc : List Command
req_misc =
    cmd_init (102 ∷ 108 ∷ 117 ∷ 115 ∷ 104 ∷ 97 ∷ 108 ∷ 108 ∷ []) (pos 1) (pos 0)
    ∷ cmd_init (112 ∷ 105 ∷ 110 ∷ 103 ∷ []) (pos 1) (pos 1)
    ∷ cmd_init (113 ∷ 117 ∷ 105 ∷ 116 ∷ []) (pos 1) (pos 0)
    ∷ []

-- The commands behind the entry of REQ_UNKNOWN.
unfoldable pub command_table : List Command
command_table =
    req_bitmap ++ (req_hash ++ (req_list ++ (req_sarray ++ (req_smap ++ (req_zset ++ req_misc)))))

unfoldable pub is_varied : ℤ → Bool
is_varied (pos n) = false
is_varied (negsuc n) = n == 0

unfoldable pub set_nopt : ℕ → Command → Command
set_nopt ntoken cmd =
    if is_varied cmd.nopt then cmd_init cmd.bstr cmd.narg (to_i32 (pos ntoken -ℤ cmd.narg)) else cmd

-- The table that the option `request_ntoken` leaves.
unfoldable pub request_setup : ℕ → List Command
unfolding command_table
request_setup ntoken = map (set_nopt ntoken) command_table
