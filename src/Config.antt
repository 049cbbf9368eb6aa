-- ===== src/Config.antt =====
-- config.c: the settings.
use castserver.Base.{ℕ}
use castserver.Env.{Env}

abbrev pub config_mtu : ℕ
config_mtu = 1500

-- Nothing reads these two.
abbrev pub config_rate : ℕ
config_rate = 48000

abbrev pub config_bits : ℕ
config_bits = 24

module _ {T : Type 0} (e : Env T) where
  abbrev pub config_speaker_bits : ℕ
  config_speaker_bits = e.bit_24

  abbrev pub config_speaker_rate : ℕ
  config_speaker_rate = e.rate_48000

  abbrev pub config_chunk_type : ℕ
  config_chunk_type = e.chunk_quality
