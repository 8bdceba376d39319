-- ===== src/Cluster/Lost.antt =====
-- A message of a worker between the listing of the nodes and the check of the worker, in one pass of
-- `check_nodes` of src/cluster/heartbeat.rs: the pass holds no lock and writes what it listed.
