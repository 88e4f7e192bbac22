-- ===== src/Http/WorkflowHandler/Nodes.antt =====
-- The nodes of internal/api/handler/workflow_graph.go.
