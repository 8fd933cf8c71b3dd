-- ===== src/Status/Tests.antt =====
-- A status code of the process component.
