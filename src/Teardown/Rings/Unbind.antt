-- ===== src/Teardown/Rings/Unbind.antt =====
-- The teardown of a device of version 2.
