-- ===== src/Utils/Heads/RoundTrip.antt =====
-- A head that was packed is parsed.
use sm.Base.{ℕ, ◌^◌, ◌<◌, ◌≡◌, ◌++◌, arith, length}
use sm.Utils.Endian.{be16, be32}
use sm.Utils.Heads.{Base64, head_bytes, packcmdrep, parsecmd, parsesubcmd}

module _ (base64 : Base64) where
  pub length-packcmdrep : (mainc assc len : ℕ) → length (packcmdrep base64 mainc assc len) ≡ 12
  unfolding packcmdrep
  length-packcmdrep mainc assc len = base64.length-encode (head_bytes mainc assc len)

  -- The base64 head that `packcmdrep` makes of a main command, an assistant command and a length of
  -- their C types is parsed by `parsecmd` into the same three numbers.
  pub parsecmd-packcmdrep :
      (mainc assc len : ℕ)
      → mainc < 2 ^ 16
      → assc < 2 ^ 16
      → len < 2 ^ 32
      → parsecmd base64 (packcmdrep base64 mainc assc len)
        ≡ record { mainc = mainc; assc = assc; len = len }
  unfolding parsecmd packcmdrep
  parsecmd-packcmdrep mainc assc len hm ha hl =
      rw (base64.decode-encode (head_bytes mainc assc len) (omega arith), parsecmd) (ground arith)

  -- The base64 text of an assistant command and a length of their C types, big-endian, is parsed
  -- by `parsesubcmd` into the same two numbers.
  pub parsesubcmd-encode :
      (assc len : ℕ)
      → assc < 2 ^ 16
      → len < 2 ^ 32
      → parsesubcmd base64 (base64.encode (be16 assc ++ be32 len))
        ≡ record { assc = assc; len = len }
  unfolding parsesubcmd
  parsesubcmd-encode assc len ha hl =
      rw (base64.decode-encode (be16 assc ++ be32 len) (omega arith), parsesubcmd) (ground arith)
