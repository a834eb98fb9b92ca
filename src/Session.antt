-- ===== src/Session.antt =====
-- The database session of barbican/model/repositories.py: what the session holds so far, and what
-- has been committed. `D` is the content of the tables.
pub record Session (D : Type 0) : Type 0 where
  pub committed : D
  pub current : D

module _ {D : Type 0} where
  -- `start` is a placeholder that does nothing.
  abbrev pub start : Session D → Session D
  start s = s

  abbrev pub commit : Session D → Session D
  commit s = record s { committed = s.current }

  abbrev pub rollback : Session D → Session D
  rollback s = record s { current = s.committed }

  -- The session is disposed of: the next one starts from what is committed.
  abbrev pub clear : Session D → Session D
  clear s = record s { current = s.committed }
