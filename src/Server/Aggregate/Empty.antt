-- ===== src/Server/Aggregate/Empty.antt =====
-- `var_op` without an accepted share on server 1.
use prio_plus.Field.{Field}
