-- ===== src/Task/Restored.antt =====
-- task.py and arguments.py: a stored task runs with the settings and the arguments it was given.
