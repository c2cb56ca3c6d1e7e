-- ===== src/Main/Unsent.antt =====
-- main.py and config_loader.py: a chunk size below 0.
use zabbig.Prelude.Float.{ℤ}
use zabbig.Models.{ClientConfig}

-- The configuration with another batch_send_max_size.
abbrev pub with_size : ℤ → ClientConfig → ClientConfig
with_size size config =
    let batching = config.batching in
    record config { batching = record batching { batch_send_max_size = size } }
