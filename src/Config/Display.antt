-- ===== src/Config/Display.antt =====
-- `ConfigError` of config.rs as it prints.
use statika.Prelude.{◌++◌}
use statika.Config.{ConfigError}
use statika.Prelude.Bytes.{Text, codes}

unfoldable pub display : ConfigError → Text
display (ConfigError.missing key) = codes "missing required environment variable " ++ key
display (ConfigError.invalid key value) = codes "invalid value for " ++ key ++ codes ": " ++ value
