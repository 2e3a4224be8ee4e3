-- ===== src/Examples/Coinbases.antt =====
-- A coinbase with two outputs to one script and one to the worker, and the theorems on it.
use stratum_stats.Base.{
  pos, ◌≡◌, refl, true, false, bytes, Bytes, [], ◌∷◌, ◌++◌, replicate, ok, err, hex_encode, arith,
  ◌≢◌, All,
}
use stratum_stats.Probe.Reader.{little_endian, truncated, worker_overflow, destination_overflow}
use stratum_stats.Probe.CompactSize.{
  compact_size, read_compact_size, read-compact_size, read_compact_size-inv,
}
use stratum_stats.Probe.Job.{Job}
use stratum_stats.Probe.Script.{decode_coinbase_height, retained_script_hex, describe_output_script}
use stratum_stats.Probe.Coinbase.Defs.{is_worker, fresh_output, CoinbaseSummary, analyze_coinbase}
use stratum_stats.Probe.Coinbase.Accounts.{
  IsBalanced, analyze_coinbase-IsBalanced, analyze_coinbase-IsOther,
}
use stratum_stats.Probe.Coinbase.Privacy.{IsRetainable, analyze_coinbase-IsRetainable}
use stratum_stats.Examples.Samples.{digest, in_order, in_order-Reorders}

-- version, one input with the height 1001, three outputs, lock time
abbrev pub raw_coinbase : Bytes
raw_coinbase =
    (1 ∷ 0 ∷ 0 ∷ 0 ∷ 1 ∷ [])
    ++ replicate 36 0
    ++ (3 ∷ 2 ∷ 0xe9 ∷ 3 ∷ 255 ∷ 255 ∷ 255 ∷ 255 ∷ 3 ∷ [])
    ++ (5 ∷ 0 ∷ 0 ∷ 0 ∷ 0 ∷ 0 ∷ 0 ∷ 0 ∷ 1 ∷ 0x51 ∷ [])
    ++ (7 ∷ 0 ∷ 0 ∷ 0 ∷ 0 ∷ 0 ∷ 0 ∷ 0 ∷ 1 ∷ 0x52 ∷ [])
    ++ (6 ∷ 0 ∷ 0 ∷ 0 ∷ 0 ∷ 0 ∷ 0 ∷ 0 ∷ 1 ∷ 0x51 ∷ [])
    ++ (0 ∷ 0 ∷ 0 ∷ 0 ∷ [])

abbrev pub worker_script : Bytes
worker_script = 0x52 ∷ []

abbrev summary : CoinbaseSummary
summary = record {
  block_height = 1000;
  total_sats = 18;
  worker_sats = 7;
  worker_wallet_seen = true;
  outputs =
      record {
        value_sats = 11;
        script_pub_key = bytes "51";
        script_pub_key_truncated = false;
        address = [];
        script_type = bytes "unknown";
        worker = false;
      }
      ∷ [];
  output_count = 3;
  outputs_truncated = false;
  omitted_sats = 0;
}

analyze_coinbase_raw : analyze_coinbase digest worker_script [] in_order raw_coinbase ≡ ok summary
unfolding analyze_coinbase read_compact_size little_endian is_worker fresh_output
    decode_coinbase_height retained_script_hex describe_output_script
analyze_coinbase_raw = refl

analyze_coinbase_short : analyze_coinbase digest worker_script [] in_order [] ≡ err truncated
unfolding analyze_coinbase
analyze_coinbase_short = refl

analyze_coinbase-IsBalanced_example : IsBalanced summary
analyze_coinbase-IsBalanced_example =
    analyze_coinbase-IsBalanced digest worker_script [] in_order in_order-Reorders raw_coinbase
      summary analyze_coinbase_raw

analyze_coinbase-IsOther_example :
    (truncated ≢ worker_overflow) × (truncated ≢ destination_overflow)
analyze_coinbase-IsOther_example =
    analyze_coinbase-IsOther digest worker_script [] in_order [] truncated analyze_coinbase_short

analyze_coinbase-IsRetainable_example : All (IsRetainable digest worker_script []) summary.outputs
analyze_coinbase-IsRetainable_example =
    analyze_coinbase-IsRetainable digest worker_script [] in_order in_order-Reorders raw_coinbase
      summary analyze_coinbase_raw

read-compact_size_example : read_compact_size (compact_size 300 ++ (7 ∷ [])) ≡ ok (300, 7 ∷ [])
read-compact_size_example = read-compact_size 300 (7 ∷ []) (omega arith)

read_compact_size_wide : read_compact_size (0xfd ∷ 44 ∷ 1 ∷ 7 ∷ []) ≡ ok (300, 7 ∷ [])
unfolding read_compact_size little_endian
read_compact_size_wide = refl

read_compact_size-inv_example : 0xfd ∷ 44 ∷ 1 ∷ 7 ∷ [] ≡ compact_size 300 ++ (7 ∷ [])
read_compact_size-inv_example =
    read_compact_size-inv (0xfd ∷ 44 ∷ 1 ∷ 7 ∷ []) 300 (7 ∷ []) (ground arith)
      read_compact_size_wide

-- the coinbase in three parts, around the two extranonces of four bytes
abbrev job : Job
job = record {
  prev_hash = hex_encode (replicate 32 1);
  coinbase1 = hex_encode ((1 ∷ 0 ∷ 0 ∷ 0 ∷ 1 ∷ []) ++ replicate 36 0 ++ (11 ∷ 2 ∷ 0xe9 ∷ 3 ∷ []));
  coinbase2 = hex_encode (
      (255 ∷ 255 ∷ 255 ∷ 255 ∷ 1 ∷ [])
      ++ (5 ∷ 0 ∷ 0 ∷ 0 ∷ 0 ∷ 0 ∷ 0 ∷ 0 ∷ 32 ∷ replicate 32 7)
      ++ (0 ∷ 0 ∷ 0 ∷ 0 ∷ []));
  merkle_branches = [];
  version = bytes "20000000";
  bits = bytes "1d00ffff";
  ntime = bytes "5f5e1000";
  extra_nonce1 = bytes "01020304";
  extra_nonce2_size = pos 4;
  worker_script = replicate 32 7;
  worker_script_sha256 = [];
}

-- in place of SHA-256, a function without collisions that gives 32 bytes for the script of the job
abbrev itself : Bytes → Bytes
itself text = text
