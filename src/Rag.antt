-- ===== src/Rag.antt =====
-- The package src/app/rag: chunking, the vector store, the pipeline.
pub mod Chunking
pub mod Chroma
pub mod VectorStore
pub mod Snapshot
pub mod Pipeline
pub mod Prompts
